-- ===== src/Broker/Growth/Tracked.antt =====
-- The quota of lib/fs-broker/broker.js follows the size of a file that is written.
use mathlib.Core.Path.{subst}
use countinghouse.Prelude.{
  ℕ, ◌+◌, ◌-◌, ◌≤◌, ◌<◌, max, ◌≡◌, refl, sym, ◌∙◌, ◌⊎◌, inl, inr, Bool, true, false, List, Option,
  none, some, arith, ltb, Bool-cases, if◌then◌else◌,
}
use countinghouse.Prelude.Int.{ℤ, pos, sub_ℕ, ◌+ℤ◌, ◌-ℤ◌, ◌≤ℤ◌, int_laws}
use countinghouse.Broker.Quota.{Quota, Report, reserve, settle, clamp, crossings}
use countinghouse.Broker.Quota.Bounds.{IsWithin, reserve-IsWithin, settle-IsWithin}
use countinghouse.Broker.Growth.{
  Os, Number, whole, by, Handle, max_io, with_quota, counting, moved, write_done, write_reserved,
  write_with, write, truncate_done, truncate_reserved, ftruncate_with, ftruncate,
}

-- A position that is null or a whole number.
abbrev pub whole_of : Option ℕ → Option Number
whole_of none = none
whole_of (some p) = some (whole p)

-- What the operating system documents of a file: a write that fails, or a truncation that fails,
-- changes nothing; a write of some bytes writes from one byte to all of them, at the position, at
-- the cursor, which it moves, or at the end of the file.
pub record Laws {File : Type 0} (os : Os File) (append : Bool) : Type 0 where
  pub cursor : File → ℕ
  pub write_fails :
      (p : Option ℕ) (len : ℕ) (f f' : File)
      → os.write append (whole_of p) len f ≡ (none, f')
      → (os.size f' ≡ os.size f) × (cursor f' ≡ cursor f)
  pub write_at :
      (p len n : ℕ) (f f' : File)
      → append ≡ false
      → 0 < len
      → os.write append (some (whole p)) len f ≡ (some n, f')
      → (0 < n) × (n ≤ len) × (os.size f' ≡ max (os.size f) (p + n)) × (cursor f' ≡ cursor f)
  pub write_on :
      (len n : ℕ) (f f' : File)
      → append ≡ false
      → 0 < len
      → os.write append none len f ≡ (some n, f')
      → (0 < n)
        × (n ≤ len)
        × (os.size f' ≡ max (os.size f) (cursor f + n))
        × (cursor f' ≡ cursor f + n)
  pub write_end :
      (len n : ℕ) (f f' : File)
      → append ≡ true
      → 0 < len
      → os.write append none len f ≡ (some n, f')
      → (0 < n) × (n ≤ len) × (os.size f' ≡ os.size f + n)
  pub truncate_fails :
      (len : ℕ) (f f' : File)
      → os.truncate (whole len) f ≡ (false, f')
      → (os.size f' ≡ os.size f) × (cursor f' ≡ cursor f)
  pub truncates :
      (len : ℕ) (f f' : File)
      → os.truncate (whole len) f ≡ (true, f')
      → (os.size f' ≡ len) × (cursor f' ≡ cursor f)

abbrev start_of : {File : Type 0} → Os File → Option ℕ → Handle File → ℕ
start_of os (some p) h = p
start_of os none h = if h.append then os.size h.file else h.pos_at

module _ {File : Type 0} (os : Os File) (append : Bool) (laws : Laws os append) (base : ℕ) where
  -- The quota counts the file's bytes and `base` others, and its limits are kept.
  pub record IsCounting (q : Quota) (f : File) : Type 0 where
    pub bytes : q.bytes ≡ pos (base + os.size f)
    pub enforced : q.enforce ≡ true
    pub kept : IsWithin q

  pub record IsTracked (h : Handle File) : Type 0 where
    pub quota : Quota
    pub is_quota : h.quota ≡ some quota
    pub counted : h.counts ≡ true
    pub known : h.lost ≡ false
    pub appends : h.append ≡ append
    pub cursor : (append ≡ true) ⊎ (h.pos_at ≡ laws.cursor h.file)
    pub counting : IsCounting quota h.file

  reserve-bytes :
      (g : ℤ) (q q' : Quota) (rs : List Report)
      → reserve g (pos 0) q ≡ some (q', rs)
      → (q'.bytes ≡ q.bytes +ℤ g) × (q'.enforce ≡ q.enforce)
  unfolding reserve crossings
  reserve-bytes g q q' rs e = ground arith

  settle-bytes :
      (r a : ℤ) (q : Quota)
      → ((settle r (pos 0) a (pos 0) q).0.bytes ≡ clamp (q.bytes -ℤ r +ℤ a))
        × ((settle r (pos 0) a (pos 0) q).0.enforce ≡ q.enforce)
  unfolding settle crossings
  settle-bytes r a q = (refl, refl)

  clamp_pos : (n : ℕ) → clamp (pos n) ≡ pos n
  clamp_pos n = ground arith

  -- After an operation that reserved `g` bytes and changed the file's size by `a`.
  settled-IsCounting :
      (g : ℕ) (a : ℤ) (q q' : Quota) (rs : List Report) (f f' : File)
      → reserve (pos g) (pos 0) q ≡ some (q', rs)
      → IsCounting q f
      → pos (base + os.size f) +ℤ a ≡ pos (base + os.size f')
      → a ≤ℤ pos g
      → IsCounting (settle (pos g) (pos 0) a (pos 0) q').0 f'
  settled-IsCounting g a q q' rs f f' e c grown bounded =
      let (bytes, enforced) = reserve-bytes (pos g) q q' rs e in
      let (left, kept) = settle-bytes (pos g) a q' in
      let back : pos (base + os.size f) +ℤ pos g -ℤ pos g +ℤ a ≡ pos (base + os.size f) +ℤ a =
        omega int_laws in
      record {
        bytes = rw (left, bytes, c.bytes, back, grown) (clamp_pos (base + os.size f'));
        enforced = rw (kept, enforced) c.enforced;
        kept =
            settle-IsWithin (pos g) (pos 0) a (pos 0) q' bounded (omega arith)
              (reserve-IsWithin (pos g) (pos 0) q q' rs c.enforced c.kept e);
      }

  same_size : (q : Quota) (f f' : File) → os.size f' ≡ os.size f → IsCounting q f → IsCounting q f'
  same_size q f f' e c = record { bytes = rw e c.bytes; enforced = c.enforced; kept = c.kept }

  -- What a write does to a file, by what the handle knows of it.
  abbrev Grows : Option ℕ → (len n : ℕ) → Handle File → File → Type 0
  Grows position len n h f =
      (n ≤ len)
      × (os.size f ≡ max (os.size h.file) (start_of os position h + n))
      × ((append ≡ true)
          ⊎ (moved os (whole_of position) (whole (start_of os position h)) n h ≡ laws.cursor f))

  grows :
      (position : Option ℕ) (len n : ℕ) (h : Handle File) (f : File)
      → IsTracked h
      → 0 < len
      → (append ≡ false) ⊎ (position ≡ none)
      → os.write h.append (whole_of position) len h.file ≡ (some n, f)
      → Grows position len n h f
  grows (some p) len n h f t some_bytes (inr none_given) e = cc
  grows (some p) len n h f t some_bytes (inl free) e =
      let call : os.write append (some (whole p)) len h.file ≡ (some n, f) = rw (sym t.appends) e in
      let (least, most, size, cursor) = laws.write_at p len n h.file f free some_bytes call in
      (most, size, elim t.cursor [ inl a ↦ inl a | inr c ↦ inr (c ∙ sym cursor) ])
  grows none len n h f t some_bytes plain e = elim (Bool-cases append) [
    | inl a ↦
        let call : os.write append none len h.file ≡ (some n, f) = rw (sym t.appends) e in
        let (least, most, size) = laws.write_end len n h.file f a some_bytes call in
        let handle : h.append ≡ true = t.appends ∙ a in
        (most, rw (handle, size) (omega arith), inl a)
    | inr a ↦
        let call : os.write append none len h.file ≡ (some n, f) = rw (sym t.appends) e in
        let (least, most, size, cursor) = laws.write_on len n h.file f a some_bytes call in
        let handle : h.append ≡ false = t.appends ∙ a in
        let here : h.pos_at ≡ laws.cursor h.file = elim t.cursor [ inl b ↦ cc | inr c ↦ c ] in
        (most, rw (handle, size, here) refl, inr (rw (handle, cursor, here) refl))
  ]

  moved_same :
      (position : Option ℕ) (at n : ℕ) (q : Quota × List Report) (h : Handle File)
      → moved os (whole_of position) (whole at) n (with_quota q h)
        ≡ moved os (whole_of position) (whole at) n h
  moved_same none at n q h = refl
  moved_same (some p) at n q h = refl

  write_done-IsTracked :
      (position : Option ℕ) (q q' : Quota) (rs : List Report) (len : ℕ) (h : Handle File)
      (w : Option ℕ × File)
      → (t : IsTracked h) → t.quota ≡ q
      → 0 < len
      → (append ≡ false) ⊎ (position ≡ none)
      → reserve (pos (start_of os position h + len - os.size h.file)) (pos 0) q ≡ some (q', rs)
      → os.write h.append (whole_of position) len h.file ≡ w
      → IsTracked
          (write_done os
            (whole_of position)
            q'
            (whole (start_of os position h))
            (os.size h.file)
            (start_of os position h + len - os.size h.file)
            (with_quota (q', rs) h)
            w).0
  write_done-IsTracked position q q' rs len h (none, f) t here some_bytes plain e w =
      let call : os.write append (whole_of position) len h.file ≡ (none, f) =
        rw (sym t.appends) w in
      let (size, cursor) = laws.write_fails position len h.file f call in
      let counting : IsCounting q h.file = subst (λ x. IsCounting x h.file) here t.counting in
      record {
        quota =
            (settle (pos (start_of os position h + len - os.size h.file)) (pos 0) (pos 0) (pos 0)
              q').0;
        is_quota = refl;
        counted = t.counted;
        known = t.known;
        appends = t.appends;
        cursor = elim t.cursor [ inl a ↦ inl a | inr c ↦ inr (c ∙ sym cursor) ];
        counting =
            settled-IsCounting _ (pos 0) q q' rs h.file f e counting (rw size (omega int_laws))
              (omega arith);
      }
  write_done-IsTracked position q q' rs len h (some n, f) t here some_bytes plain e w =
      let (most, size, cursor) = grows position len n h f t some_bytes plain w in
      let counting : IsCounting q h.file = subst (λ x. IsCounting x h.file) here t.counting in
      record {
        quota =
            (settle (pos (start_of os position h + len - os.size h.file)) (pos 0)
              (pos (start_of os position h + n - os.size h.file)) (pos 0) q').0;
        is_quota = refl;
        counted = t.counted;
        known = t.known;
        appends = t.appends;
        cursor = elim cursor [
          | inl a ↦ inl a
          | inr c ↦ inr (moved_same position _ n (q', rs) h ∙ c)
        ];
        counting =
            settled-IsCounting _ (pos (start_of os position h + n - os.size h.file)) q q' rs h.file
              f e counting (rw size (omega int_laws)) (omega arith);
      }

  write_reserved-IsTracked :
      (position : Option ℕ) (q : Quota) (len : ℕ) (h : Handle File)
      (r : Option (Quota × List Report))
      → (t : IsTracked h) → t.quota ≡ q
      → 0 < len
      → (append ≡ false) ⊎ (position ≡ none)
      → reserve (pos (start_of os position h + len - os.size h.file)) (pos 0) q ≡ r
      → IsTracked
          (write_reserved os
            (whole_of position)
            len
            (whole (start_of os position h))
            (os.size h.file)
            (start_of os position h + len - os.size h.file)
            h
            r).0
  write_reserved-IsTracked position q len h none t here some_bytes plain e = t
  write_reserved-IsTracked position q len h (some (q', rs)) t here some_bytes plain e =
      write_done-IsTracked position q q' rs len h (os.write h.append (whole_of position) len h.file)
        t here some_bytes plain e refl

  counting_quota : (h : Handle File) → (t : IsTracked h) → counting h ≡ by t.quota
  counting_quota h t = rw (t.counted, t.is_quota, t.known) refl

  write_by-IsTracked :
      (position : Option ℕ) (len : ℕ) (h : Handle File)
      → (t : IsTracked h) → 0 < len
      → (append ≡ false) ⊎ (position ≡ none)
      → IsTracked (write_with os (whole_of position) len h (by t.quota)).0
  write_by-IsTracked (some p) len h t some_bytes plain =
      write_reserved-IsTracked (some p) t.quota len h
        (reserve (pos (p + len - os.size h.file)) (pos 0) t.quota) t refl some_bytes plain refl
  write_by-IsTracked none len h t some_bytes plain =
      write_reserved-IsTracked none t.quota len h
        (reserve (pos (start_of os none h + len - os.size h.file)) (pos 0) t.quota) t refl
        some_bytes plain refl

  pub write-IsTracked :
      (position : Option ℕ) (len : ℕ) (h : Handle File)
      → IsTracked h
      → 0 < len
      → (append ≡ false) ⊎ (position ≡ none)
      → IsTracked (write os (whole_of position) len h).0
  unfolding write
  write-IsTracked position len h t some_bytes plain = elim (Bool-cases (ltb max_io len)) [
    | inl e ↦ rw e t
    | inr e ↦ rw (e, counting_quota h t) (write_by-IsTracked position len h t some_bytes plain)
  ]

  truncate_done-IsTracked :
      (q q' : Quota) (rs : List Report) (len : ℕ) (h : Handle File) (w : Bool × File)
      → (t : IsTracked h) → t.quota ≡ q
      → reserve (pos (len + 0 - os.size h.file)) (pos 0) q ≡ some (q', rs)
      → os.truncate (whole len) h.file ≡ w
      → IsTracked
          (truncate_done os q'
            (whole len)
            (os.size h.file)
            (len + 0 - os.size h.file)
            (with_quota (q', rs) h)
            w).0
  truncate_done-IsTracked q q' rs len h (false, f) t here e w =
      let (size, cursor) = laws.truncate_fails len h.file f w in
      let counting : IsCounting q h.file = subst (λ x. IsCounting x h.file) here t.counting in
      record {
        quota = (settle (pos (len + 0 - os.size h.file)) (pos 0) (pos 0) (pos 0) q').0;
        is_quota = refl;
        counted = t.counted;
        known = t.known;
        appends = t.appends;
        cursor = elim t.cursor [ inl a ↦ inl a | inr c ↦ inr (c ∙ sym cursor) ];
        counting =
            settled-IsCounting _ (pos 0) q q' rs h.file f e counting (rw size (omega int_laws))
              (omega arith);
      }
  truncate_done-IsTracked q q' rs len h (true, f) t here e w =
      let (size, cursor) = laws.truncates len h.file f w in
      let counting : IsCounting q h.file = subst (λ x. IsCounting x h.file) here t.counting in
      record {
        quota =
            (settle (pos (len + 0 - os.size h.file)) (pos 0) (sub_ℕ len (os.size h.file)) (pos 0)
              q').0;
        is_quota = refl;
        counted = t.counted;
        known = t.known;
        appends = t.appends;
        cursor = elim t.cursor [ inl a ↦ inl a | inr c ↦ inr (c ∙ sym cursor) ];
        counting =
            settled-IsCounting _ (sub_ℕ len (os.size h.file)) q q' rs h.file f e counting
              (rw size (grind int_laws)) (ground arith);
      }

  truncate_reserved-IsTracked :
      (q : Quota) (len : ℕ) (h : Handle File) (r : Option (Quota × List Report))
      → (t : IsTracked h) → t.quota ≡ q
      → reserve (pos (len + 0 - os.size h.file)) (pos 0) q ≡ r
      → IsTracked
          (truncate_reserved os (whole len) (os.size h.file) (len + 0 - os.size h.file) h r).0
  truncate_reserved-IsTracked q len h none t here e = t
  truncate_reserved-IsTracked q len h (some (q', rs)) t here e =
      truncate_done-IsTracked q q' rs len h (os.truncate (whole len) h.file) t here e refl

  pub ftruncate-IsTracked :
      (len : ℕ) (h : Handle File) → IsTracked h → IsTracked (ftruncate os (whole len) h).0
  unfolding ftruncate
  ftruncate-IsTracked len h t =
      let run : IsTracked (ftruncate_with os (whole len) h (by t.quota)).0 =
        truncate_reserved-IsTracked t.quota len h
          (reserve (pos (len + 0 - os.size h.file)) (pos 0) t.quota) t refl refl in
      rw (counting_quota h t) run
