-- ===== src/Permissions/Parse/Reported.antt =====
-- What parsing a declaration of lib/module-permissions.js drops, it reports.
use countinghouse.Prelude.{
  ℕ, suc, ◌+◌, ◌≡◌, refl, Option, String, List, [], ◌∷◌, ◌++◌, arith, length, length-append,
}
use countinghouse.Prelude.Text.{Text}
use countinghouse.Permissions.Parse.{
  Field, absent, mistyped, given, Read, kept, refused, Reason, not_an_array, Problem, push_read,
  read_each, read_list, parse_fs, parse_net, parse_env, parse_limits, read_name, read_path,
  read_host, RawFs, RawNet, RawDeclaration, parse_declaration,
}

-- The items of a member; 1 for a member that is no list.
abbrev pub item_count : {A : Type 0} → Field (List A) → ℕ
item_count absent = 0
item_count mistyped = 1
item_count (given xs) = length xs

module _ {A B : Type 0} (read : A → Read B) where
  push_read-length :
      (i : ℕ) (r : Read B) (rest : List B × List Problem)
      → length (push_read i r rest).0 + length (push_read i r rest).1
        ≡ suc (length rest.0 + length rest.1)
  push_read-length i (kept b) rest = omega arith
  push_read-length i (refused why) rest = omega arith

  read_each-length :
      (i : ℕ) (xs : List A)
      → length (read_each read i xs).0 + length (read_each read i xs).1 ≡ length xs
  unfolding read_each
  read_each-length i [] = refl
  read_each-length i (x ∷ xs) =
      ground (
        arith,
        push_read-length i (read x) (read_each read (suc i) xs),
        read_each-length (suc i) xs,
      )

  read_list-length :
      (why : Reason) (xs : Field (List A))
      → length (read_list why read xs).0 + length (read_list why read xs).1 ≡ item_count xs
  unfolding read_list
  read_list-length why absent = refl
  read_list-length why mistyped = refl
  read_list-length why (given xs) = read_each-length 0 xs

module _ (lower normalize : Text → Text) where
  parse_fs-length :
      (raw : Field (List RawFs))
      → length (parse_fs normalize raw).0 + length (parse_fs normalize raw).1 ≡ item_count raw
  unfolding parse_fs
  parse_fs-length raw = read_list-length (λ e. read_path normalize e.path e.access) not_an_array raw

  parse_net-length :
      (raw : Field (List RawNet))
      → length (parse_net lower raw).0 + length (parse_net lower raw).1 ≡ item_count raw
  unfolding parse_net
  parse_net-length raw = read_list-length (λ e. read_host lower e.host e.ports) not_an_array raw

parse_env-length :
    (raw : Field (List (Option String)))
    → length (parse_env raw).0 + length (parse_env raw).1 ≡ item_count raw
unfolding parse_env
parse_env-length raw = read_list-length read_name not_an_array raw

length-append_four :
    {A : Type 0} (xs bs cs ds : List A)
    → length (xs ++ bs ++ cs ++ ds) ≡ length xs + length bs + length cs + length ds
length-append_four xs bs cs ds =
    rw (length-append (xs ++ bs ++ cs) ds, length-append (xs ++ bs) cs, length-append xs bs)
      (omega arith)

-- Parsing a declaration drops no item of `fs`, `net` or `env` silently: the grants and names that
-- are kept and the problems that are reported are as many as the items, the problems with limits
-- apart. A member that is no list counts as one item, and is reported once.
parse_declaration-reports :
    (lower normalize : Text → Text) (raw : RawDeclaration)
    → length (parse_declaration lower normalize (given raw)).0.fs
        + length (parse_declaration lower normalize (given raw)).0.net
        + length (parse_declaration lower normalize (given raw)).0.env
        + length (parse_declaration lower normalize (given raw)).1
      ≡ item_count raw.fs
        + item_count raw.net
        + item_count raw.env
        + length (parse_limits raw.limits).1
unfolding parse_declaration
parse_declaration-reports lower normalize raw =
    let fs = parse_fs-length lower normalize raw.fs in
    let net = parse_net-length lower normalize raw.net in
    let env = parse_env-length raw.env in
    rw
      (length-append_four (parse_fs normalize raw.fs).1 (parse_net lower raw.net).1
        (parse_env raw.env).1 (parse_limits raw.limits).1)
      (omega arith)
