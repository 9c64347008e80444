-- ===== src/AdminEvent/Details.antt =====
-- What the Details cell can show (changedText of web/src/lib/admin-event.ts).
use porymcp.Base.{
  ◌≡◌, refl, sym, ap, ap₂, ◌∙◌, inl, inr, Bool, true, not, Option, some, List, [], ◌∷◌, ◌++◌,
  if◌then◌else◌, Bool-cases, filter, Text, text, ◌==◌, join, eq_sound, includes, Distinct,
}
use porymcp.ToolFilter.Edits.{Distinct-append}
use porymcp.Json.{Json, Members}
use porymcp.Json.Members.{end, member}
use porymcp.VirtualKeyForm.{ends_with}
use porymcp.AdminEvent.{
  AdminEvent, entry, keys, known_keys, known_parts, unknown_keys, changed_parts, changed_text,
  add_labels, field_text,
}

-- Two details with the same keys and the same values of those that the dashboard knows.
abbrev pub Alike : Members → Members → Type 0
Alike end end = Unit
Alike (member k v ms) (member j w ns) =
    (k ≡ j) × (includes known_keys k ≡ true → v ≡ w) × Alike ms ns
Alike _ _ = ⊥

Alike-keys : (d e : Members) → Alike d e → keys d ≡ keys e
unfolding keys
Alike-keys end end h = refl
Alike-keys end (member j w ns) h = absurd h
Alike-keys (member k v ms) end h = absurd h
Alike-keys (member k v ms) (member j w ns) h = ap₂ (◌∷◌) h.0 (Alike-keys ms ns h.2)

Alike-entry :
    (d e : Members) (key : Text)
    → includes known_keys key ≡ true
    → Alike d e
    → entry d key ≡ entry e key
unfolding entry
Alike-entry end end key known h = refl
Alike-entry end (member j w ns) key known h = absurd h
Alike-entry (member k v ms) end key known h = absurd h
Alike-entry (member k v ms) (member j w ns) key known (same, value, rest) =
    elim (Bool-cases (k == key)) [
      | inl here ↦
          rw (here, ap (λ t. t == key) (sym same) ∙ here)
            (ap some (value (ap (includes known_keys) (eq_sound k key here) ∙ known)))
      | inr there ↦
          rw (there, ap (λ t. t == key) (sym same) ∙ there) (Alike-entry ms ns key known rest)
    ]

Alike-known_parts :
    (create : Bool) (at there : Text → Option Json)
    → ((key : Text) → includes known_keys key ≡ true → at key ≡ there key)
    → known_parts create at ≡ known_parts create there
unfolding known_parts text
Alike-known_parts create at there e =
    rw
      (
        e (text "fields") refl,
        e (text "cleared") refl,
        e (text "slug") refl,
        e (text "kind") refl,
        e (text "auth_type") refl,
        e (text "auth_changed") refl,
        e (text "upstream_count") refl,
        e (text "tool_filter_set") refl,
        e (text "target_type") refl,
        e (text "key_prefix") refl,
        e (text "client") refl,
        e (text "refresh_token") refl,
        e (text "issuer") refl,
        e (text "vendor_revocation") refl,
      )
      refl

-- Of a detail that the dashboard does not know, only the name is shown: events of one action whose
-- details have the same keys in the same order, and the same values of the known ones, read the
-- same.
pub changed_text-Alike :
    (before after : AdminEvent)
    → before.action ≡ after.action
    → Alike before.details after.details
    → changed_text before ≡ changed_text after
unfolding changed_text changed_parts known_parts unknown_keys keys
changed_text-Alike before after a h =
    ap₂ (λ x y. join (text ", ") (x ++ filter (λ k. not (includes known_keys k)) y))
      (ap (λ t. known_parts (ends_with t (text ".create")) (entry before.details)) a
        ∙ Alike-known_parts _ (entry before.details) (entry after.details)
            (λ key known. Alike-entry before.details after.details key known h))
      (Alike-keys before.details after.details h)

-- The labels of the changed fields are listed once each.
pub add_labels-Distinct :
    (auth_type : Text) (count : Option Text) (fields labels : List Text)
    → Distinct labels
    → Distinct (add_labels labels auth_type count fields)
unfolding add_labels
add_labels-Distinct auth_type count [] labels h = h
add_labels-Distinct auth_type count (f ∷ fs) labels h =
    let shown = field_text auth_type count f in
    add_labels-Distinct auth_type count fs
      (if includes labels shown then labels else labels ++ shown ∷ [])
      (elim (Bool-cases (includes labels shown)) [
        | inl there ↦ rw there h
        | inr fresh ↦ rw fresh (Distinct-append labels shown h fresh)
      ])
