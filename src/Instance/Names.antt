-- ===== src/Instance/Names.antt =====
-- instance.cpp: names, log levels and the ports that are declared.
use muscle.Prelude.{
  ℕ, ◌-◌, ◌&&◌, List, [], ◌∷◌, ◌++◌, Option, none, some, Result, ok, err, Error, runtime_error, leb,
  ltb, length, take, drop, if◌then◌else◌, ◌==◌, list_eq, nat_eq,
}
use muscle.Identity.{Text, Reference, id_part, index_part}
use muscle.Identity.Parse.{string_to_parts}
use muscle.Model.{Operator, skip_identifiers}

-- enum class LogLevel
pub data LogLevel : Type 0 where
  disable critical error warning info debug local : LogLevel

-- if (('a' <= c) && (c <= 'z')) c += ('A' - 'a');
abbrev pub to_upper : Text → Text
to_upper [] = []
to_upper (c ∷ cs) = (if leb b'a' c && leb c b'z' then c - 32 else c) ∷ to_upper cs

abbrev pub level_of : Text → Result Error LogLevel
level_of t =
    if t == (b'D' ∷ b'I' ∷ b'S' ∷ b'A' ∷ b'B' ∷ b'L' ∷ b'E' ∷ [])
    then ok disable
    else (if t == (b'C' ∷ b'R' ∷ b'I' ∷ b'T' ∷ b'I' ∷ b'C' ∷ b'A' ∷ b'L' ∷ [])
        then ok critical
        else (if t == (b'E' ∷ b'R' ∷ b'R' ∷ b'O' ∷ b'R' ∷ [])
            then ok error
            else (if t == (b'W' ∷ b'A' ∷ b'R' ∷ b'N' ∷ b'I' ∷ b'N' ∷ b'G' ∷ [])
                then ok warning
                else (if t == (b'I' ∷ b'N' ∷ b'F' ∷ b'O' ∷ [])
                    then ok info
                    else (if t == (b'D' ∷ b'E' ∷ b'B' ∷ b'U' ∷ b'G' ∷ [])
                        then ok debug
                        else (if t == (b'L' ∷ b'O' ∷ b'C' ∷ b'A' ∷ b'L' ∷ [])
                            then ok local
                            else err runtime_error))))))

unfoldable pub string_to_level : Text → Result Error LogLevel
string_to_level log_level_str = level_of (to_upper log_level_str)

-- name_: the identifiers that the name of the instance begins with.
unfoldable pub name_ : Reference → Reference
name_ [] = []
name_ (id_part i ∷ ps) = id_part i ∷ name_ ps
name_ (index_part n ∷ ps) = []

abbrev pub leading_indices : Reference → List ℕ
leading_indices [] = []
leading_indices (id_part i ∷ ps) = []
leading_indices (index_part n ∷ ps) = n ∷ leading_indices ps

-- index_: the indices that follow them.
unfoldable pub index_ : Reference → List ℕ
unfolding skip_identifiers
index_ instance_name = leading_indices (skip_identifiers instance_name)

-- The value of the first argument that begins with a tag.
unfoldable pub tagged : Text → List Text → Option Text
tagged tag [] = none
tagged tag (arg ∷ args) =
    let rest = tagged tag args in
    if take (length tag) arg == tag then some (drop (length tag) arg) else rest

abbrev pub instance_tag : Text
instance_tag =
    b'-' ∷ b'-' ∷ b'm' ∷ b'u' ∷ b's' ∷ b'c' ∷ b'l' ∷ b'e' ∷ b'-' ∷ b'i' ∷ b'n' ∷ b's' ∷ b't' ∷ b'a'
    ∷ b'n' ∷ b'c' ∷ b'e' ∷ b'=' ∷ []

abbrev pub manager_tag : Text
manager_tag =
    b'-' ∷ b'-' ∷ b'm' ∷ b'u' ∷ b's' ∷ b'c' ∷ b'l' ∷ b'e' ∷ b'-' ∷ b'm' ∷ b'a' ∷ b'n' ∷ b'a' ∷ b'g'
    ∷ b'e' ∷ b'r' ∷ b'=' ∷ []

abbrev pub default_location : Text
default_location =
    b't' ∷ b'c' ∷ b'p' ∷ b':' ∷ b'l' ∷ b'o' ∷ b'c' ∷ b'a' ∷ b'l' ∷ b'h' ∷ b'o' ∷ b's' ∷ b't' ∷ b':'
    ∷ b'9' ∷ b'0' ∷ b'0' ∷ b'0' ∷ []

-- make_full_name_, with the arguments behind the program's name and the environment variable.
unfoldable pub make_full_name_ : List Text → Option Text → Result Error Reference
unfolding tagged string_to_parts
make_full_name_ args env = elim (tagged instance_tag args) [
  | some name ↦ string_to_parts name
  | none ↦ elim env [ some name ↦ string_to_parts name | none ↦ err runtime_error ]
]

unfoldable pub extract_manager_location_ : List Text → Option Text → Text
unfolding tagged
extract_manager_location_ args env = elim (tagged manager_tag args) [
  | some location ↦ location
  | none ↦ elim env [ some location ↦ location | none ↦ default_location ]
]

-- The name of a port without the brackets of a vector port.
abbrev pub declared_name : Text → Text
declared_name fullname =
    if ltb 2 (length fullname) && drop (length fullname - 2) fullname == (b'[' ∷ b']' ∷ [])
    then take (length fullname - 2) fullname
    else fullname

abbrev pub declared_on : Operator → List Text → List (Text × Operator)
declared_on oper [] = []
declared_on oper (fullname ∷ names) = (declared_name fullname, oper) ∷ declared_on oper names

unfoldable pub list_declared_ports_ : List (Operator × List Text) → List (Text × Operator)
list_declared_ports_ [] = []
list_declared_ports_ ((oper, names) ∷ rest) = declared_on oper names ++ list_declared_ports_ rest
