-- ===== src/Effect/Reading.antt =====
-- Reading answers: the `switch` on `sql.ErrNoRows`, and the loops over `rows.Next`.
use terraform_provider_postg.Base.{String, Bool, true, false, List, [], ◌∷◌}
use terraform_provider_postg.Effect.{
  Error, wrapped, Scan, no_rows, failed, row, Cell, unread, value, M, pure, fail, ◌>>=◌,
}

module _ {D A : Type 0} where
  -- ErrNoRows is `false`, another error is wrapped, a row is `true`.
  abbrev pub found_or : String → Scan A → M D Bool
  found_or msg no_rows = pure false
  found_or msg (failed e) = fail (wrapped msg e)
  found_or msg (row _) = pure true

  -- ErrNoRows and any other error are failures.
  abbrev pub row_or : Error → String → Scan A → M D A
  row_or missing msg no_rows = fail missing
  row_or missing msg (failed e) = fail (wrapped msg e)
  row_or missing msg (row a) = pure a

  -- The rows up to the end; the first row that cannot be read ends the loop with its error.
  unfoldable pub collect : String → List (Cell A) → M D (List A)
  collect msg [] = pure []
  collect msg (unread e ∷ cells) = fail (wrapped msg e)
  collect msg (value a ∷ cells) = do rest ← collect msg cells; pure (a ∷ rest)
