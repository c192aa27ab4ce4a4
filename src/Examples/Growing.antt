-- ===== src/Examples/Growing.antt =====
-- Writes through lib/fs-broker/broker.js to a file near the quota.
use countinghouse.Prelude.{
  sym, ℕ, ◌+◌, max, ◌≡◌, ◌≢◌, refl, Bool, true, false, List, [], ◌∷◌, Option, none, some, arith,
}
use countinghouse.Prelude.Int.{pos}
use countinghouse.Broker.Quota.{Quota, new_quota}
use countinghouse.Broker.Growth.{Os, Number, whole, below, not_a_number, Handle, invalid, write_all}
use countinghouse.Broker.Growth.Runs.{Op, write_op, truncate_op}
use countinghouse.Broker.Growth.Tracked.{Laws, whole_of}
use countinghouse.Broker.Growth.Finite.{write_all-ends}

-- A file is its size and the cursor; writes are never partial, and nothing fails.
abbrev File : Type 0
File = ℕ × ℕ

abbrev wrote_at : Option Number → ℕ → File → Option ℕ × File
wrote_at none len f = (some len, (max f.0 (f.1 + len), f.1 + len))
wrote_at (some (whole p)) len f = (some len, (max f.0 (p + len), f.1))
wrote_at (some _) len f = (none, f)

abbrev cut : Number → File → Bool × File
cut (whole len) f = (true, (len, f.1))
cut (below k) f = (true, (0, f.1))
cut not_a_number f = (false, f)

abbrev os : Os File
os = record {
  size = λ f. f.0;
  write = λ append position len f. wrote_at position len f;
  truncate = cut;
}

wrote_parts :
    (len n : ℕ) (g f : File)
    → Path (Option ℕ × File) (some len, g) (some n, f)
    → (len ≡ n) × (g ≡ f)
wrote_parts len n g f e = (cc, cc)

never_fails :
    (p : Option ℕ) (len : ℕ) (f f' : File)
    → os.write false (whole_of p) len f ≡ (none, f')
    → (os.size f' ≡ os.size f) × (f'.1 ≡ f.1)
never_fails none len f f' e = cc
never_fails (some p) len f f' e = cc

no_append : {A : Type 0} → false ≡ true → A
no_append e = cc

no_error : {A : Type 0} {f f' : File} → Path (Bool × File) (true, f) (false, f') → A
no_error e = cc

truncated :
    (len : ℕ) (f f' : File)
    → os.truncate (whole len) f ≡ (true, f')
    → (os.size f' ≡ len) × (f'.1 ≡ f.1)
truncated len f f' e = let same : (len, f.1) ≡ f' = cc in (rw (sym same) refl, rw (sym same) refl)

abbrev os_laws : Laws os false
os_laws = record {
  cursor = λ f. f.1;
  write_fails = never_fails;
  write_at = λ p len n f f' no_append least e.
      let (all, same) = wrote_parts len n _ f' e in
      (omega (arith, all), omega (arith, all), rw (sym same, sym all) refl, rw (sym same) refl);
  write_on = λ len n f f' no_append least e.
      let (all, same) = wrote_parts len n _ f' e in
      (
        omega (arith, all),
        omega (arith, all),
        rw (sym same, sym all) refl,
        rw (sym same, sym all) refl,
      );
  write_end = λ len n f f' append least e. no_append append;
  truncate_fails = λ len f f' e. no_error e;
  truncates = truncated;
}

-- 40 of 100 bytes of the quota are the file's, and 30 are others.
abbrev handle : Handle File
handle = record {
  file = (40, 0);
  append = false;
  counts = true;
  pos_at = 0;
  quota = some (new_quota 100 10 true (pos 70) (pos 2));
  lost = false;
  reports = [];
}

abbrev ops : List Op
ops = write_op none 60 ∷ write_op (some (whole 90)) 20 ∷ truncate_op (whole 5) ∷ []

write_all-ends_example : (write_all os 100 100 handle).1 ≢ invalid
write_all-ends_example = write_all-ends os 100 handle (omega arith)
