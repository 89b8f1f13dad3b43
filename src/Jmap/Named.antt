-- ===== src/Jmap/Named.antt =====
-- services/collector-jmap/spec.go: a mailbox is either named or the inbox.
use ice_hive.Prelude.{
  ◌≡◌, refl, false, not, if_both, Result, ok, err, Bool-cases, inl, inr, length, drop,
}
use ice_hive.Text.{Bytes, codes, is_nil, trim_space, has_prefix, to_lower, equal_fold}
use ice_hive.Jmap.{
  SpecError, Mailbox, prefix_mailbox_lower, mailbox_or_inbox_from_env, parse_rest,
  parse_jmap_mailbox_source_spec,
}

-- A mailbox has an id exactly if the inbox is not to be looked for.
abbrev pub IsNamed : Result SpecError Mailbox → Type 0
IsNamed (ok m) = is_nil m.mailbox_id ≡ m.resolve_rfc_inbox
IsNamed (err e) = Unit

module _ (nfc : Bytes → Bytes) (mailbox_variable : Bytes)
    (nfc_text : (s : Bytes) → is_nil s ≡ false → is_nil (nfc s) ≡ false) where
  variable-IsNamed : IsNamed (ok (mailbox_or_inbox_from_env nfc mailbox_variable))
  unfolding mailbox_or_inbox_from_env
  variable-IsNamed = elim (Bool-cases (is_nil (trim_space mailbox_variable))) [
    | inl e ↦ rw e refl
    | inr e ↦ rw e (nfc_text (trim_space mailbox_variable) e)
  ]

  rest-IsNamed : (s : Bytes) → IsNamed (parse_rest nfc mailbox_variable s)
  unfolding parse_rest
  rest-IsNamed s = elim (Bool-cases (is_nil s)) [
    | inl e ↦ rw e tt
    | inr e ↦ rw e (
        if_both IsNamed (equal_fold s (codes "inbox")) refl
          (if_both IsNamed (equal_fold s (codes "env")) variable-IsNamed (nfc_text s e)))
  ]

  -- Whatever is accepted as a mailbox's source_spec, either gives an id or asks for the inbox, and
  -- never both, where NFC of a text that is not empty is not empty.
  pub parse_jmap_mailbox_source_spec-IsNamed :
      (s : Bytes) → IsNamed (parse_jmap_mailbox_source_spec nfc mailbox_variable s)
  unfolding parse_jmap_mailbox_source_spec
  parse_jmap_mailbox_source_spec-IsNamed s =
      if_both IsNamed (is_nil (trim_space s)) variable-IsNamed (
        if_both IsNamed (not (has_prefix (to_lower (trim_space s)) prefix_mailbox_lower)) tt
          (rest-IsNamed (trim_space (drop (length prefix_mailbox_lower) (trim_space s)))))
