-- ===== src/Record/Total/Sql.antt =====
-- The annotations of the record functions for mysqli and mysqli_stmt, made wherever there are enough
-- arguments.
use molten.Common.{
  ℕ, zero, suc, ◌+◌, ◌≤◌, ◌<◌, refl, Bool, true, false, List, [], ◌∷◌, length, arith, Result,
}
use molten.Zval.{Zval}
use molten.Span.Builder.{Annotation}
use molten.Record.Engine.{Frame, Tracer, arg}
use molten.Record.Safe.{Total, bind-Total}
use molten.Record.Mysqli

arg-Total : (n : ℕ) (args : List Zval) → n < length args → Total (arg n args)
unfolding arg
arg-Total n [] h = absurd (omega arith)
arg-Total zero (v ∷ more) h = (v, refl)
arg-Total (suc n) (v ∷ more) h = arg-Total n more (omega arith)

module _ (t : Tracer) (f : Frame t.mode.Context) where
  pub connect_notes-Total : 1 ≤ length f.args → Total (Mysqli.connect_notes t f)
  unfolding Mysqli.connect_notes
  connect_notes-Total h = bind-Total _ _ (arg-Total 0 f.args h) (λ host. (_, refl))

  pub real_connect_notes-Total : 2 ≤ length f.args → Total (Mysqli.real_connect_notes t f)
  unfolding Mysqli.real_connect_notes
  real_connect_notes-Total h = bind-Total _ _ (arg-Total 1 f.args h) (λ host. (_, refl))

  link_of-Total :
      (procedural : Bool)
      → Mysqli.sql_place t f procedural ≤ length f.args
      → Total (Mysqli.link_of t f procedural)
  link_of-Total true h = arg-Total 0 f.args h
  link_of-Total false h = (_, refl)

  get_sa-Total :
      (procedural : Bool)
      → Mysqli.sql_place t f procedural ≤ length f.args
      → Total (Mysqli.db_query_get_sa t f procedural)
  unfolding Mysqli.db_query_get_sa
  get_sa-Total procedural h = bind-Total _ _ (link_of-Total procedural h) (λ link. (_, refl))

  stmt_get_sa-Total :
      (procedural : Bool)
      → Mysqli.sql_place t f procedural ≤ length f.args
      → Total (Mysqli.mysqli_stmt_get_sa t f procedural)
  unfolding Mysqli.mysqli_stmt_get_sa
  stmt_get_sa-Total procedural h = bind-Total _ _ (link_of-Total procedural h) (λ link. (_, refl))

  error-Total :
      (procedural : Bool)
      → Mysqli.sql_place t f procedural ≤ length f.args
      → Total (Mysqli.mysqli_error t f procedural)
  unfolding Mysqli.mysqli_error
  error-Total true h = bind-Total _ _ (arg-Total 0 f.args h) (λ link. (_, refl))
  error-Total false h = (_, refl)

  stmt_error-Total :
      (procedural : Bool)
      → Mysqli.sql_place t f procedural ≤ length f.args
      → Total (Mysqli.mysqli_stmt_error t f procedural)
  unfolding Mysqli.mysqli_stmt_error
  stmt_error-Total true h = bind-Total _ _ (arg-Total 0 f.args h) (λ link. (_, refl))
  stmt_error-Total false h = (_, refl)

  statement_notes-Total :
      (procedural : Bool) (sa error : Result (List Annotation))
      → Mysqli.sql_place t f procedural < length f.args
      → Total sa
      → Total error
      → Total (Mysqli.statement_notes t f procedural sa error)
  statement_notes-Total procedural sa error h hs he =
      bind-Total _ _ (arg-Total (Mysqli.sql_place t f procedural) f.args h)
        (λ sql. bind-Total _ _ hs (λ a. bind-Total _ _ he (λ b. (_, refl))))

  pub query_notes-Total :
      (procedural : Bool)
      → Mysqli.sql_place t f procedural + 1 ≤ length f.args
      → Total (
          Mysqli.statement_notes t f procedural
            (Mysqli.db_query_get_sa t f procedural)
            (Mysqli.mysqli_error t f procedural))
  query_notes-Total procedural h =
      statement_notes-Total procedural _ _ (omega arith) (get_sa-Total procedural (omega arith))
        (error-Total procedural (omega arith))

  pub prepare_notes-Total :
      (procedural : Bool)
      → Mysqli.sql_place t f procedural + 1 ≤ length f.args
      → Total (
          Mysqli.statement_notes t f procedural
            (Mysqli.mysqli_stmt_get_sa t f procedural)
            (Mysqli.mysqli_stmt_error t f procedural))
  prepare_notes-Total procedural h =
      statement_notes-Total procedural _ _ (omega arith)
        (stmt_get_sa-Total procedural (omega arith)) (stmt_error-Total procedural (omega arith))

  pub exe_notes-Total :
      (procedural : Bool)
      → Mysqli.sql_place t f procedural ≤ length f.args
      → Total (Mysqli.stmt_exe_notes t f procedural)
  unfolding Mysqli.stmt_exe_notes
  exe_notes-Total procedural h =
      bind-Total _ _ (stmt_get_sa-Total procedural h)
        (λ sa. bind-Total _ _ (stmt_error-Total procedural h) (λ error. (_, refl)))
