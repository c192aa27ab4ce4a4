-- ===== src/Examples/Declarations.antt =====
-- A declaration with a reserved path, lib/module-permissions.js.
use countinghouse.Prelude.{[], ◌∷◌, some}
use countinghouse.Prelude.Text.{Text, codes}
use countinghouse.Permissions.{r, rw, heap_mb}
use countinghouse.Permissions.Parse.{RawDeclaration, given, mistyped, parse_declaration}
use countinghouse.Permissions.Parse.Valid.{IsValid, parse_declaration-IsValid}

abbrev unchanged : Text → Text
unchanged t = t

abbrev raw : RawDeclaration
raw = record {
  fs = given (
      record { path = some (codes "/srv"); access = some rw }
      ∷ record { path = some (codes "/data/x"); access = some r }
      ∷ []);
  net = mistyped;
  env = given (some "TOKEN" ∷ some "token" ∷ []);
  limits = given (record { key = some heap_mb; value = some 128 } ∷ []);
}

parse_declaration-IsValid_example :
    IsValid unchanged unchanged (parse_declaration unchanged unchanged (given raw)).0
parse_declaration-IsValid_example = parse_declaration-IsValid unchanged unchanged (given raw)
