-- ===== src/Tests/Faults.antt =====
-- PHP's errors at concrete inputs.
use molten.Common.{refl, true, some, [], ◌∷◌, codes, pos}
use molten.Report.{ctor}
use molten.Report.Callback.{Error, Scene, Caught, Agree, error_cbs, error_cbs-Agree}

abbrev fatal : Error
fatal = record {
  normal = true;
  type_of = 1;
  filename = codes "a.php";
  lineno = 7;
  message = codes "out of memory";
}

abbrev scene : Scene
scene = record {
  is_sampled = true;
  in_request = true;
  request_uri = some (codes "/");
  execute_begin_time = 5;
}

abbrev start : Caught
start = record { error_list = []; report = ctor (pos 0) (pos 60) (pos 9) }

start-Agree : Agree start
unfolding ctor
start-Agree = record { same = refl; short = tt }

error_cbs-Agree_example : Agree (error_cbs scene (fatal ∷ fatal ∷ []) start)
error_cbs-Agree_example = error_cbs-Agree (codes "/") 5 (fatal ∷ fatal ∷ []) start start-Agree
