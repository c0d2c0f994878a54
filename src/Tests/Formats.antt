-- ===== src/Tests/Formats.antt =====
-- Spans of the SkyWalking format at concrete inputs.
use molten.Common.{
  ◌≡◌, refl, true, none, some, ◌++◌, Bytes, codes, decimal, pos, arith, ok, fault, decimal_ℤ,
  bytes_eq,
}
use molten.Zval.{Arr, empty, long, string, array, find, add_next_index}
use molten.Span.{an_server, ba_error, ba_path}
use molten.Span.SkyWalking.{SkyChain, operation_name, pair, start_span_builder, span_add_ba_builder}
use molten.Span.SkyLinks.{start_span_builder-links}
use molten.Span.SkyNotes.{IsText, span_add_ba_builder-keeps, span_add_ba_builder-long}

abbrev chain : SkyChain
chain = record {
  service_name = codes "shop";
  span_type = pos 0;
  span_layer = pos 3;
  component_id = pos 0;
  has_error_list = true;
}

-- 129 bytes
abbrev quarter : Bytes
quarter = codes "abcdefghijklmnopqrstuvwxyz012345"

abbrev long_value : Bytes
long_value = quarter ++ quarter ++ quarter ++ quarter ++ codes "!"

start_span_builder-links_example :
    (span : Arr) × (start_span_builder
        (codes "GET")
        (decimal 12)
        (some (decimal 0))
        5
        9
        chain
        an_server
      ≡ ok span)
    × (find (codes "si") span ≡ some (long (pos 12)))
    × (find (codes "ps") span ≡ some (long (pos 0)))
    × (find (codes "on") span
        ≡ some (string (operation_name (codes "shop") (codes "GET") (decimal 12))))
    × (find (codes "to") span
        ≡ some (array (add_next_index (array (pair (codes "span.kind") (codes "server"))) empty)))
unfolding decimal
start_span_builder-links_example =
    start_span_builder-links (codes "GET") 12 (some 0) 5 9 chain an_server (omega arith) refl
      (omega arith)

span_add_ba_builder-keeps_example :
    (span' : Arr) × (span_add_ba_builder
        (some (codes "k"))
        (some (codes "v"))
        5
        none
        (some (codes "::1"))
        (pos 80)
        ba_error
        empty
      ≡ ok span')
    × (find (codes "si") span' ≡ find (codes "si") empty)
unfolding decimal bytes_eq decimal_ℤ
span_add_ba_builder-keeps_example =
    span_add_ba_builder-keeps ba_error (codes "k") (codes "v") 5 none (some (codes "::1")) (pos 80)
      empty (codes "si") (omega arith) (omega arith) (refl, (refl, (refl, (refl, tt))))

long-IsText : IsText long_value
long-IsText = (
  refl,
  (
    refl,
    (
      refl,
      (
        refl,
        (
          refl,
          (
            refl,
            (
              refl,
              (
                refl,
                (
                  refl,
                  (
                    refl,
                    (
                      refl,
                      (
                        refl,
                        (
                          refl,
                          (
                            refl,
                            (
                              refl,
                              (
                                refl,
                                (
                                  refl,
                                  (
                                    refl,
                                    (
                                      refl,
                                      (
                                        refl,
                                        (
                                          refl,
                                          (
                                            refl,
                                            (
                                              refl,
                                              (
                                                refl,
                                                (
                                                  refl,
                                                  (
                                                    refl,
                                                    (
                                                      refl,
                                                      (
                                                        refl,
                                                        (
                                                          refl,
                                                          (
                                                            refl,
                                                            (
                                                            refl,
                                                            (
                                                            refl,
                                                            (
                                                            refl,
                                                            (
                                                            refl,
                                                            (
                                                            refl,
                                                            (
                                                            refl,
                                                            (
                                                            refl,
                                                            (
                                                            refl,
                                                            (
                                                            refl,
                                                            (
                                                            refl,
                                                            (
                                                            refl,
                                                            (
                                                            refl,
                                                            (
                                                            refl,
                                                            (
                                                            refl,
                                                            (
                                                            refl,
                                                            (
                                                            refl,
                                                            (
                                                            refl,
                                                            (
                                                            refl,
                                                            (
                                                            refl,
                                                            (
                                                            refl,
                                                            (
                                                            refl,
                                                            (
                                                            refl,
                                                            (
                                                            refl,
                                                            (
                                                            refl,
                                                            (
                                                            refl,
                                                            (
                                                            refl,
                                                            (
                                                            refl,
                                                            (
                                                            refl,
                                                            (
                                                            refl,
                                                            (
                                                            refl,
                                                            (
                                                            refl,
                                                            (
                                                            refl,
                                                            (
                                                            refl,
                                                            (
                                                            refl,
                                                            (
                                                            refl,
                                                            (
                                                            refl,
                                                            (
                                                            refl,
                                                            (
                                                            refl,
                                                            (
                                                            refl,
                                                            (
                                                            refl,
                                                            (
                                                            refl,
                                                            (
                                                            refl,
                                                            (
                                                            refl,
                                                            (
                                                            refl,
                                                            (
                                                            refl,
                                                            (
                                                            refl,
                                                            (
                                                            refl,
                                                            (
                                                            refl,
                                                            (
                                                            refl,
                                                            (
                                                            refl,
                                                            (
                                                            refl,
                                                            (
                                                            refl,
                                                            (
                                                            refl,
                                                            (
                                                            refl,
                                                            (
                                                            refl,
                                                            (
                                                            refl,
                                                            (
                                                            refl,
                                                            (
                                                            refl,
                                                            (
                                                            refl,
                                                            (
                                                            refl,
                                                            (
                                                            refl,
                                                            (
                                                            refl,
                                                            (
                                                            refl,
                                                            (
                                                            refl,
                                                            (
                                                            refl,
                                                            (
                                                            refl,
                                                            (
                                                            refl,
                                                            (
                                                            refl,
                                                            (
                                                            refl,
                                                            (
                                                            refl,
                                                            (
                                                            refl,
                                                            (
                                                            refl,
                                                            (
                                                            refl,
                                                            (
                                                            refl,
                                                            (
                                                            refl,
                                                            (
                                                            refl,
                                                            (
                                                            refl,
                                                            (
                                                            refl,
                                                            (
                                                            refl,
                                                            (
                                                            refl,
                                                            (
                                                            refl,
                                                            (
                                                            refl,
                                                            (
                                                            refl,
                                                            (
                                                            refl,
                                                            (
                                                            refl,
                                                            (
                                                            refl,
                                                            (
                                                            refl,
                                                            (
                                                            refl,
                                                            (
                                                            refl,
                                                            (
                                                            refl,
                                                            (
                                                            refl,
                                                            (
                                                            refl,
                                                            (
                                                            refl,
                                                            (
                                                            refl,
                                                            (
                                                            refl,
                                                            (refl, (refl, (refl, (refl, tt)))),
                                                            ),
                                                            ),
                                                            ),
                                                            ),
                                                            ),
                                                            ),
                                                            ),
                                                            ),
                                                            ),
                                                            ),
                                                            ),
                                                            ),
                                                            ),
                                                            ),
                                                            ),
                                                            ),
                                                            ),
                                                            ),
                                                            ),
                                                            ),
                                                            ),
                                                            ),
                                                            ),
                                                            ),
                                                            ),
                                                            ),
                                                            ),
                                                            ),
                                                            ),
                                                            ),
                                                            ),
                                                            ),
                                                            ),
                                                            ),
                                                            ),
                                                            ),
                                                            ),
                                                            ),
                                                            ),
                                                            ),
                                                            ),
                                                            ),
                                                            ),
                                                            ),
                                                            ),
                                                            ),
                                                            ),
                                                            ),
                                                            ),
                                                            ),
                                                            ),
                                                            ),
                                                            ),
                                                            ),
                                                            ),
                                                            ),
                                                            ),
                                                            ),
                                                            ),
                                                            ),
                                                            ),
                                                            ),
                                                            ),
                                                            ),
                                                            ),
                                                            ),
                                                            ),
                                                            ),
                                                            ),
                                                            ),
                                                            ),
                                                            ),
                                                            ),
                                                            ),
                                                            ),
                                                            ),
                                                            ),
                                                            ),
                                                            ),
                                                            ),
                                                            ),
                                                            ),
                                                            ),
                                                            ),
                                                            ),
                                                            ),
                                                            ),
                                                            ),
                                                            ),
                                                            ),
                                                            ),
                                                            ),
                                                            ),
                                                            ),
                                                            ),
                                                          ),
                                                        ),
                                                      ),
                                                    ),
                                                  ),
                                                ),
                                              ),
                                            ),
                                          ),
                                        ),
                                      ),
                                    ),
                                  ),
                                ),
                              ),
                            ),
                          ),
                        ),
                      ),
                    ),
                  ),
                ),
              ),
            ),
          ),
        ),
      ),
    ),
  ),
)

span_add_ba_builder-long_example :
    span_add_ba_builder
      (some (codes "k"))
      (some long_value)
      5
      none
      (some (codes "::1"))
      (pos 80)
      ba_path
      empty
    ≡ fault
unfolding decimal decimal_ℤ
span_add_ba_builder-long_example =
    span_add_ba_builder-long ba_path (codes "k") long_value 5 none (some (codes "::1")) (pos 80)
      empty (omega arith) long-IsText (omega arith) refl
