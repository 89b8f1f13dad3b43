-- ===== src/PersisterMysql/Names.antt =====
-- services/persister-mysql/main.go: table and column names from what collectors send.
use ice_hive.Prelude.{
  ℕ, ◌≡◌, refl, inl, inr, Bool, true, false, ◌&&◌, ◌||◌, [], ◌∷◌, ◌++◌, map, arith, leb, ◌==◌,
  if◌then◌else◌, Bool-cases, if_both, All, All-append,
}
use ice_hive.Text.{Bytes, codes, is_nil, str_eq, trim_space, to_lower}

-- What the pattern `[^a-z0-9_]` does not match.
unfoldable pub is_ident : ℕ → Bool
is_ident c = leb b'a' c && leb c b'z' || leb b'0' c && leb c b'9' || c == b'_'

-- identifierPattern.ReplaceAllString(s, "")
unfoldable pub keep_ident : Bytes → Bytes
keep_ident [] = []
keep_ident (c ∷ s) = let rest = keep_ident s in if is_ident c then c ∷ rest else rest

unfoldable pub sink_table_name : Bytes → Bytes
sink_table_name entity_type =
    let base = keep_ident (to_lower (trim_space entity_type)) in
    if is_nil base then [] else base ++ codes "s"

abbrev pub dash_to_underscore : ℕ → ℕ
dash_to_underscore c = if c == b'-' then b'_' else c

unfoldable pub safe_column_name : Bytes → Bytes
safe_column_name name = keep_ident (map dash_to_underscore (to_lower (trim_space name)))

-- reservedColumns
abbrev pub is_reserved : Bytes → Bool
is_reserved col = str_eq col (codes "created_at") || str_eq col (codes "updated_at")

unfoldable pub entity_column_name : Bytes → Bytes
entity_column_name field =
    let col = safe_column_name field in if is_nil col || is_reserved col then [] else col

-- strings.ReplaceAll of a backtick by two
double_backticks : Bytes → Bytes
double_backticks [] = []
double_backticks (c ∷ s) =
    let rest = double_backticks s in if c == 96 then 96 ∷ 96 ∷ rest else c ∷ rest

unfoldable pub quote_ident : Bytes → Bytes
unfolding double_backticks
quote_ident id = 96 ∷ (double_backticks id ++ 96 ∷ [])

unfoldable pub entity_type_or_unknown : Bytes → Bytes
entity_type_or_unknown entity_type =
    let t = trim_space entity_type in if is_nil t then codes "unknown" else t

-- Letters, digits and underscores only.
abbrev pub IsIdent : Bytes → Type 0
IsIdent = All (λ c. is_ident c ≡ true)

keep_ident-IsIdent : (s : Bytes) → IsIdent (keep_ident s)
unfolding keep_ident
keep_ident-IsIdent [] = tt
keep_ident-IsIdent (c ∷ s) = elim (Bool-cases (is_ident c)) [
  | inl e ↦ rw e (e, keep_ident-IsIdent s)
  | inr e ↦ rw e (keep_ident-IsIdent s)
]

double_backticks-ident : (s : Bytes) → IsIdent s → double_backticks s ≡ s
unfolding double_backticks is_ident
double_backticks-ident [] h = refl
double_backticks-ident (c ∷ s) h = ground (arith, double_backticks-ident s)

sink_table_name-IsIdent : (s : Bytes) → IsIdent (sink_table_name s)
unfolding sink_table_name
sink_table_name-IsIdent s = if_both IsIdent (is_nil (keep_ident (to_lower (trim_space s)))) tt (
    All-append _ (keep_ident (to_lower (trim_space s))) (codes "s")
      (keep_ident-IsIdent (to_lower (trim_space s))) (unfold is_ident in refl, tt))

entity_column_name-IsIdent : (s : Bytes) → IsIdent (entity_column_name s)
unfolding entity_column_name
entity_column_name-IsIdent s =
    if_both IsIdent (is_nil (safe_column_name s) || is_reserved (safe_column_name s)) tt
      (unfold safe_column_name in keep_ident-IsIdent _)

entity_column_name-not_reserved : (s : Bytes) → is_reserved (entity_column_name s) ≡ false
unfolding entity_column_name
entity_column_name-not_reserved s = elim (Bool-cases (is_nil (safe_column_name s))) [
  | inl e ↦ rw e (unfold str_eq in refl)
  | inr e ↦ elim (Bool-cases (is_reserved (safe_column_name s))) [
    | inl f ↦ rw (e, f) (unfold str_eq in refl)
    | inr f ↦ rw (e, f) f
  ]
]

quote_ident_lem : (s : Bytes) → IsIdent s → quote_ident s ≡ 96 ∷ (s ++ 96 ∷ [])
unfolding quote_ident
quote_ident_lem s h = rw (double_backticks-ident s h)

-- Whatever the names that a message carries, the table and the column of a statement are letters,
-- digits and underscores between two backticks, so nothing can end the quotation early; and a
-- column is never one of the two that the rows' own times are kept in.
pub quoted_names :
    (entity_type field : Bytes)
    → IsIdent (sink_table_name entity_type)
      × (quote_ident (sink_table_name entity_type) ≡ 96 ∷ (sink_table_name entity_type ++ 96 ∷ []))
      × IsIdent (entity_column_name field)
      × (quote_ident (entity_column_name field) ≡ 96 ∷ (entity_column_name field ++ 96 ∷ []))
      × (is_reserved (entity_column_name field) ≡ false)
quoted_names entity_type field = (
  sink_table_name-IsIdent entity_type,
  quote_ident_lem (sink_table_name entity_type) (sink_table_name-IsIdent entity_type),
  entity_column_name-IsIdent field,
  quote_ident_lem (entity_column_name field) (entity_column_name-IsIdent field),
  entity_column_name-not_reserved field,
)
