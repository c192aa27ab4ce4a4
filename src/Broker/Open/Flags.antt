-- ===== src/Broker/Open/Flags.antt =====
-- The flags of an opening in lib/fs-broker/broker.js, as a list of the bits that are set.
use countinghouse.Prelude.{Bool, true, false, List, [], ◌∷◌, Option, some, any}
use countinghouse.Prelude.Text.{Text, codes, text_eq}
use countinghouse.Prelude.Dict.{Dict, get}

-- The bits of `fs.constants`; O_RDONLY has none.
pub data Flag : Type 0 where
  wronly rdwr creat excl trunc append sync : Flag

-- `n & f`, by the names of the bits.
abbrev pub is_write_flag : Flag → Bool
is_write_flag excl = false
is_write_flag sync = false
is_write_flag _ = true

abbrev pub is_create_flag : Flag → Bool
is_create_flag creat = true
is_create_flag trunc = true
is_create_flag excl = true
is_create_flag _ = false

abbrev pub is_trunc : Flag → Bool
is_trunc trunc = true
is_trunc _ = false

abbrev pub is_creat : Flag → Bool
is_creat creat = true
is_creat _ = false

abbrev pub is_append : Flag → Bool
is_append append = true
is_append _ = false

-- `FLAG_TABLE`
abbrev pub flag_table : Dict Text (List Flag)
flag_table =
    (codes "r", [])
    ∷ (codes "rs", sync ∷ [])
    ∷ (codes "sr", sync ∷ [])
    ∷ (codes "r+", rdwr ∷ [])
    ∷ (codes "rs+", rdwr ∷ sync ∷ [])
    ∷ (codes "sr+", rdwr ∷ sync ∷ [])
    ∷ (codes "w", trunc ∷ creat ∷ wronly ∷ [])
    ∷ (codes "wx", trunc ∷ creat ∷ wronly ∷ excl ∷ [])
    ∷ (codes "xw", trunc ∷ creat ∷ wronly ∷ excl ∷ [])
    ∷ (codes "w+", trunc ∷ creat ∷ rdwr ∷ [])
    ∷ (codes "wx+", trunc ∷ creat ∷ rdwr ∷ excl ∷ [])
    ∷ (codes "xw+", trunc ∷ creat ∷ rdwr ∷ excl ∷ [])
    ∷ (codes "a", append ∷ creat ∷ wronly ∷ [])
    ∷ (codes "ax", append ∷ creat ∷ wronly ∷ excl ∷ [])
    ∷ (codes "xa", append ∷ creat ∷ wronly ∷ excl ∷ [])
    ∷ (codes "as", append ∷ creat ∷ wronly ∷ sync ∷ [])
    ∷ (codes "sa", append ∷ creat ∷ wronly ∷ sync ∷ [])
    ∷ (codes "a+", append ∷ creat ∷ rdwr ∷ [])
    ∷ (codes "ax+", append ∷ creat ∷ rdwr ∷ excl ∷ [])
    ∷ (codes "xa+", append ∷ creat ∷ rdwr ∷ excl ∷ [])
    ∷ (codes "as+", append ∷ creat ∷ rdwr ∷ sync ∷ [])
    ∷ (codes "sa+", append ∷ creat ∷ rdwr ∷ sync ∷ [])
    ∷ []

-- The argument: null, a number by its bits, or a text.
pub data FlagArg : Type 0 where
  no_flags : FlagArg
  bits : List Flag → FlagArg
  flag_text : Text → FlagArg

-- `none` is the throw of EINVAL.
unfoldable pub numeric_flags : FlagArg → Option (List Flag)
numeric_flags no_flags = get (codes "r") flag_table
numeric_flags (bits fs) = some fs
numeric_flags (flag_text t) = get t flag_table

-- `openFlags`
abbrev pub writes : List Flag → Bool
writes fs = any is_write_flag fs

abbrev pub creates : List Flag → Bool
creates fs = any is_create_flag fs
