-- ===== src/UpstreamsPage/Patches.antt =====
-- What an input of the dialog changes (onFieldChange of web/src/app/(app)/upstreams/page.tsx).
use porymcp.Base.{
  ◌≡◌, refl, inl, inr, Bool, false, true≢false, not, ◌&&◌, none, List, [], ◌∷◌, arith, Bool-cases,
  any, Text, text,
}
use porymcp.SlugPreview.{derive_slug}
use porymcp.UpstreamForm.{UpstreamForm, apply_kind_change, connection_fields}
use porymcp.UpstreamsPage.{
  Patch, name, slug, description, url, transport, test_path, auth_type, token, header, param, value,
  client_id, client_secret, register_client, enabled, clear_stored, text_patch, flag_patch,
  form_patch, in_patch, put_patch, patched, UpstreamsPage, on_field_change,
}

-- The fields that a discovery answers for.
abbrev pub connection : UpstreamForm → List Text
connection f =
    f.kind ∷ f.url ∷ f.transport ∷ f.test_path ∷ f.auth_type ∷ f.token ∷ f.header ∷ f.param
    ∷ f.value ∷ []

-- A patch of no connection field leaves the connection as it is.
pub put_patch-connection :
    (patch : Patch) (f : UpstreamForm)
    → any (in_patch patch) connection_fields ≡ false
    → connection (put_patch patch f) ≡ connection f
unfolding text
put_patch-connection (text_patch name v) f h = refl
put_patch-connection (text_patch slug v) f h = refl
put_patch-connection (text_patch description v) f h = refl
put_patch-connection (text_patch url v) f h = absurd (true≢false h)
put_patch-connection (text_patch transport v) f h = absurd (true≢false h)
put_patch-connection (text_patch test_path v) f h = absurd (true≢false h)
put_patch-connection (text_patch auth_type v) f h = absurd (true≢false h)
put_patch-connection (text_patch token v) f h = absurd (true≢false h)
put_patch-connection (text_patch header v) f h = absurd (true≢false h)
put_patch-connection (text_patch param v) f h = absurd (true≢false h)
put_patch-connection (text_patch value v) f h = absurd (true≢false h)
put_patch-connection (text_patch client_id v) f h = refl
put_patch-connection (text_patch client_secret v) f h = refl
put_patch-connection (flag_patch register_client v) f h = refl
put_patch-connection (flag_patch enabled v) f h = refl
put_patch-connection (flag_patch clear_stored v) f h = refl
put_patch-connection (form_patch g) f h = absurd (true≢false h)

pub patched-connection :
    (touched : Bool) (patch : Patch) (f : UpstreamForm)
    → any (in_patch patch) connection_fields ≡ false
    → connection (patched touched patch f) ≡ connection f
patched-connection touched patch f h =
    elim (Bool-cases
      (in_patch patch (text "name") && not (in_patch patch (text "slug")) && not touched)) [
        | inl derives ↦ rw derives (put_patch-connection patch f h)
        | inr plain ↦ rw plain (put_patch-connection patch f h)
      ]

-- The name and the slug.
abbrev pub names : UpstreamForm → List Text
names f = f.name ∷ f.slug ∷ []

put_patch-names :
    (patch : Patch) (f : UpstreamForm)
    → in_patch patch (text "name") ≡ false
    → in_patch patch (text "slug") ≡ false
    → names (put_patch patch f) ≡ names f
unfolding text
put_patch-names (text_patch name v) f h k = absurd (true≢false h)
put_patch-names (text_patch slug v) f h k = absurd (true≢false k)
put_patch-names (text_patch description v) f h k = refl
put_patch-names (text_patch url v) f h k = refl
put_patch-names (text_patch transport v) f h k = refl
put_patch-names (text_patch test_path v) f h k = refl
put_patch-names (text_patch auth_type v) f h k = refl
put_patch-names (text_patch token v) f h k = refl
put_patch-names (text_patch header v) f h k = refl
put_patch-names (text_patch param v) f h k = refl
put_patch-names (text_patch value v) f h k = refl
put_patch-names (text_patch client_id v) f h k = refl
put_patch-names (text_patch client_secret v) f h k = refl
put_patch-names (flag_patch register_client v) f h k = refl
put_patch-names (flag_patch enabled v) f h k = refl
put_patch-names (flag_patch clear_stored v) f h k = refl
put_patch-names (form_patch g) f h k = absurd (true≢false h)

-- A slug that follows the name.
abbrev pub Follows : UpstreamForm → Type 0
Follows f = f.slug ≡ derive_slug f.name

Follows-names : (f g : UpstreamForm) → names f ≡ names g → Follows g → Follows f
Follows-names f g e h = ground (arith, e, h)

pub patched-Follows :
    (patch : Patch) (f : UpstreamForm)
    → in_patch patch (text "slug") ≡ false
    → Follows f
    → Follows (patched false patch f)
patched-Follows patch f k h = elim (Bool-cases (in_patch patch (text "name"))) [
  | inl named ↦ rw (named, k) refl
  | inr other ↦ rw other (Follows-names (put_patch patch f) f (put_patch-names patch f other k) h)
]

-- In the Add dialog, a name that is typed after a kind was picked leaves the slug as it was,
-- whether or not a slug was ever typed.
pub on_field_change-picks_kind :
    (p : UpstreamsPage) (kind v : Text)
    → p.editing ≡ none
    → (on_field_change
        (text_patch name v)
        (on_field_change (form_patch (apply_kind_change p.form kind)) p)).form.slug
      ≡ (apply_kind_change p.form kind).slug
unfolding on_field_change text
on_field_change-picks_kind p kind v adding = rw adding refl
