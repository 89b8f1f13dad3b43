-- ===== src/Text.antt =====
-- The functions of Go's package strings that the program calls, on texts as lists of bytes.
-- Spaces and letter case are those of ASCII; other bytes are neither space nor letter.
pub mod Within
pub mod Trim
pub mod Decimal
pub mod Parts
use Prim.Native.Char.{code}
use Prim.Native.String.{String}
use ice_hive.Prelude.{
  ℕ, zero, suc, ◌+◌, ◌-◌, Bool, true, false, ◌&&◌, ◌||◌, List, [], ◌∷◌, Option, none, some, map,
  leb, ltb, ◌==◌, if◌then◌else◌, length,
}

abbrev pub Bytes : Type 0
Bytes = List ℕ

abbrev pub codes : String → Bytes
codes String.[] = []
codes (String.◌∷◌ c s) = code c ∷ codes s

abbrev pub is_nil : Bytes → Bool
is_nil [] = true
is_nil (c ∷ s) = false

-- `a == b` on strings
unfoldable pub str_eq : Bytes → Bytes → Bool
str_eq [] [] = true
str_eq [] (d ∷ t) = false
str_eq (c ∷ s) [] = false
str_eq (c ∷ s) (d ∷ t) = c == d && str_eq s t

unfoldable pub is_space : ℕ → Bool
is_space c = c == 32 || leb 9 c && leb c 13

-- strings.TrimLeftFunc
unfoldable pub trim_left : (ℕ → Bool) → Bytes → Bytes
trim_left p [] = []
trim_left p (c ∷ s) = if p c then trim_left p s else c ∷ s

-- strings.TrimRightFunc
unfoldable pub trim_right : (ℕ → Bool) → Bytes → Bytes
trim_right p [] = []
trim_right p (c ∷ s) = let r = trim_right p s in if p c && is_nil r then [] else c ∷ r

-- strings.TrimFunc
unfoldable pub trim : (ℕ → Bool) → Bytes → Bytes
trim p s = trim_right p (trim_left p s)

-- strings.TrimSpace
unfoldable pub trim_space : Bytes → Bytes
trim_space s = trim is_space s

unfoldable pub lower : ℕ → ℕ
lower c = if leb 65 c && leb c 90 then c + 32 else c

-- strings.ToLower
unfoldable pub to_lower : Bytes → Bytes
to_lower s = map lower s

-- strings.EqualFold
unfoldable pub equal_fold : Bytes → Bytes → Bool
equal_fold s t = str_eq (to_lower s) (to_lower t)

-- strings.HasPrefix, the prefix last
unfoldable pub has_prefix : Bytes → Bytes → Bool
has_prefix s [] = true
has_prefix [] (d ∷ t) = false
has_prefix (c ∷ s) (d ∷ t) = c == d && has_prefix s t

-- strings.HasSuffix, the suffix last
unfoldable pub has_suffix : Bytes → Bytes → Bool
has_suffix [] t = is_nil t
has_suffix (c ∷ s) t = str_eq (c ∷ s) t || has_suffix s t

-- strings.Contains, the part last
unfoldable pub contains : Bytes → Bytes → Bool
contains [] t = is_nil t
contains (c ∷ s) t = has_prefix (c ∷ s) t || contains s t

unfoldable pub contains_byte : ℕ → Bytes → Bool
contains_byte b [] = false
contains_byte b (c ∷ s) = c == b || contains_byte b s

-- strings.ContainsAny, the set of bytes last
unfoldable pub contains_any : Bytes → Bytes → Bool
contains_any [] t = false
contains_any (c ∷ s) t = contains_byte c t || contains_any s t

abbrev pub push_front : ℕ → Bytes × List Bytes → Bytes × List Bytes
push_front c (p, ps) = (c ∷ p, ps)

-- The first part and the others; the number counts the bytes of a separator still to skip.
unfoldable pub split_from : Bytes → ℕ → Bytes → Bytes × List Bytes
split_from sep k [] = ([], [])
split_from sep zero (c ∷ s) = elim (has_prefix (c ∷ s) sep) [
  | true ↦ let r = split_from sep (length sep - 1) s in ([], r.0 ∷ r.1)
  | false ↦ push_front c (split_from sep 0 s)
]
split_from sep (suc k) (c ∷ s) = split_from sep k s

-- strings.Split by a separator that is not empty, as `parts[0]` and `parts[1:]`
unfoldable pub split : Bytes → Bytes → Bytes × List Bytes
split s sep = split_from sep 0 s

abbrev pub push_before : ℕ → Option (Bytes × Bytes) → Option (Bytes × Bytes)
push_before c none = none
push_before c (some (p, q)) = some (c ∷ p, q)

-- strings.SplitN(s, sep, 2) by one byte; `none` when it has one part only
unfoldable pub split_two : Bytes → ℕ → Option (Bytes × Bytes)
split_two [] sep = none
split_two (c ∷ s) sep =
    let r = split_two s sep in if c == sep then some ([], s) else push_before c r

-- `a < b` on Go strings
unfoldable pub less : Bytes → Bytes → Bool
less [] [] = false
less [] (d ∷ t) = true
less (c ∷ s) [] = false
less (c ∷ s) (d ∷ t) = ltb c d || c == d && less s t
