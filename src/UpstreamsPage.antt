-- ===== src/UpstreamsPage.antt =====
-- The Add and Edit dialog of the Upstreams page (web/src/app/(app)/upstreams/page.tsx): its state,
-- the handlers that open, change, submit and close it, and the answers of the requests they send.
--
-- A handler runs whole, between two renders. The clock and the scrolling are left out, the stored
-- register choices are those of OauthConnect, and the list's own reloads are counted.
pub mod Late
pub mod Seqs
pub mod Patches
pub mod Kept
pub mod Rows
pub mod RowsKept
mod Tests
use porymcp.Base.{
  ℕ, zero, suc, ◌+◌, ◌-◌, ◌*◌, ◌/◌, ◌%◌, ◌≤◌, ◌<◌, String, ◌≡◌, refl, sym, ap, ap₂, subst, ◌∙◌, ◌≢◌,
  ◌↔◌, ◌⊎◌, inl, inr, Bool, true, false, false≢true, true≢false, not, ◌&&◌, ◌||◌, Option, none,
  some, List, [], ◌∷◌, ◌++◌, map, append-nil, append_assoc, arith, ltb, leb, eqb, if◌then◌else◌,
  eqb_iff, eqb_refl, Bool-cases, Option-cases, Bool-eq, and_parts, or_cases, or_right, not-true,
  or_false, some_inj, not-false, length, take, drop, any, all, filter, find, is_empty, All, or_else,
  length-append, take-append_length, drop-append_length, any-append, any-filter, any_ext,
  All-weaken, All-append, All-middle, All-insert, All-both, Exists, any_iff, all_iff, is_found,
  find-any, Text, text, ◌==◌, starts_with, join, truthy, or_text, eq_sound, eq_refl, eq_complete,
  eq_iff, starts_with-append, starts_with_rest, trim_end, trim_start, trim, includes, Distinct,
  SubsetOf, SameSet, includes-append, any_of_includes, all_of_includes, all_intro, any_witness,
  any-SameSet, without, includes-without, Distinct-without, length-without, length-SubsetOf,
  SameSet-of_length, digits_onto, decimal,
}
use porymcp.Json.{Members}
use porymcp.Json.Members.{end, member}
use porymcp.Api.{Upstream, Discovery, Failure, api_error, unreachable}
use porymcp.Api.Errors.{discovery_error_message, edit_error_message, upstream, save}
use porymcp.SlugPreview.{derive_slug}
use porymcp.OauthConnect.{Storage, Choice, save_register_choices}
use porymcp.UpstreamForm.{
  UpstreamForm, connection_fields, blank_upstream_form, form_from_upstream, apply_kind_change,
  client_secret_alone, client_secret_alone_sentence, upstream_patch_body,
}

pub record DiscoveryState : Type 0 where
  pub result : Option Discovery
  pub pending : Bool
  pub error : Text

abbrev pub idle_panel : DiscoveryState
idle_panel = record { result = none; pending = false; error = [] }

-- A request that is out, with the count it saw, and what it was made of.
pub data Call : Type 0 where
  creating : ℕ → Call
  patching : ℕ → Text → Members → Call
  discovering : ℕ → UpstreamForm → Call

pub record UpstreamsPage : Type 0 where
  pub items : List Upstream
  pub loads : ℕ
  pub open_dialog : Bool
  pub editing : Option Upstream
  pub saving : Bool
  pub error : Text
  pub form_error : Text
  pub form_error_seq : ℕ
  pub slug_touched : Bool
  pub form : UpstreamForm
  pub form_discovery : DiscoveryState
  pub form_seq : ℕ
  pub dialog_seq : ℕ
  pub register_for : List Choice
  pub storage : Option Storage
  pub revoke_line : Text
  pub calls : List Call

abbrev pub fresh_page : List Choice → Option Storage → UpstreamsPage
fresh_page choices storage = record {
  items = [];
  loads = 1;
  open_dialog = false;
  editing = none;
  saving = false;
  error = [];
  form_error = [];
  form_error_seq = 0;
  slug_touched = false;
  form = blank_upstream_form;
  form_discovery = idle_panel;
  form_seq = 0;
  dialog_seq = 0;
  register_for = choices;
  storage = storage;
  revoke_line = [];
  calls = [];
}

-- The fields that the dialog's inputs change one at a time.
pub data TextField : Type 0 where
  name slug description url transport test_path auth_type token header param value client_id
        client_secret :
      TextField

pub data FlagField : Type 0 where
  register_client enabled clear_stored : FlagField

-- What an input hands to onFieldChange; the Kind radio hands over the whole form.
pub data Patch : Type 0 where
  text_patch : TextField → Text → Patch
  flag_patch : FlagField → Bool → Patch
  form_patch : UpstreamForm → Patch

abbrev pub text_key : TextField → Text
text_key name = text "name"
text_key slug = text "slug"
text_key description = text "description"
text_key url = text "url"
text_key transport = text "transport"
text_key test_path = text "test_path"
text_key auth_type = text "auth_type"
text_key token = text "token"
text_key header = text "header"
text_key param = text "param"
text_key value = text "value"
text_key client_id = text "client_id"
text_key client_secret = text "client_secret"

abbrev pub flag_key : FlagField → Text
flag_key register_client = text "register_client"
flag_key enabled = text "enabled"
flag_key clear_stored = text "clear_stored"

-- `key in patch`; the whole form has every key.
abbrev pub in_patch : Patch → Text → Bool
in_patch (text_patch f v) key = text_key f == key
in_patch (flag_patch f v) key = flag_key f == key
in_patch (form_patch f) key = true

abbrev pub put_text : TextField → Text → UpstreamForm → UpstreamForm
put_text name v f = record f { name = v }
put_text slug v f = record f { slug = v }
put_text description v f = record f { description = v }
put_text url v f = record f { url = v }
put_text transport v f = record f { transport = v }
put_text test_path v f = record f { test_path = v }
put_text auth_type v f = record f { auth_type = v }
put_text token v f = record f { token = v }
put_text header v f = record f { header = v }
put_text param v f = record f { param = v }
put_text value v f = record f { value = v }
put_text client_id v f = record f { client_id = v }
put_text client_secret v f = record f { client_secret = v }

abbrev pub put_flag : FlagField → Bool → UpstreamForm → UpstreamForm
put_flag register_client v f = record f { register_client = v }
put_flag enabled v f = record f { enabled = v }
put_flag clear_stored v f = record f { clear_stored = v }

abbrev pub put_patch : Patch → UpstreamForm → UpstreamForm
put_patch (text_patch t v) f = put_text t v f
put_patch (flag_patch t v) f = put_flag t v f
put_patch (form_patch g) f = g

abbrev pub reset_form_discovery : UpstreamsPage → UpstreamsPage
reset_form_discovery p = record p { form_seq = suc p.form_seq; form_discovery = idle_panel }

-- The form after a patch in the Add dialog.
abbrev pub patched : Bool → Patch → UpstreamForm → UpstreamForm
patched touched patch f =
    if in_patch patch (text "name") && not (in_patch patch (text "slug")) && not touched
    then record (put_patch patch f) { slug = derive_slug (put_patch patch f).name }
    else put_patch patch f

abbrev pub add_change : Patch → UpstreamsPage → UpstreamsPage
add_change patch p = record p {
  slug_touched = in_patch patch (text "slug") || p.slug_touched;
  form = patched p.slug_touched patch p.form;
}

unfoldable pub on_field_change : Patch → UpstreamsPage → UpstreamsPage
on_field_change patch p =
    if is_found p.editing
    then record p { form = put_patch patch p.form }
    else if any (in_patch patch) connection_fields
    then reset_form_discovery (add_change patch p)
    else add_change patch p

unfoldable pub discover_form : UpstreamsPage → UpstreamsPage
discover_form p = record p {
  form_seq = suc p.form_seq;
  form_discovery = record { result = none; pending = true; error = [] };
  calls = p.calls ++ discovering (suc p.form_seq) p.form ∷ [];
}

abbrev pub dialog_opened : UpstreamsPage → UpstreamsPage
dialog_opened p = record p { dialog_seq = suc p.dialog_seq; saving = false; open_dialog = true }

abbrev pub form_to_add : UpstreamForm → UpstreamForm
form_to_add f = record f {
  name = [];
  slug = [];
  description = [];
  kind = text "mcp";
  url = [];
  transport = text "streamable-http";
  test_path = [];
  token = [];
  value = [];
  clear_stored = false;
}

unfoldable pub open_add : UpstreamsPage → UpstreamsPage
open_add p = dialog_opened (
    reset_form_discovery (record p {
      editing = none;
      form_error = [];
      slug_touched = false;
      form = form_to_add p.form;
    }))

-- `registerFor[id] ?? false`
unfoldable pub choice_of : List Choice → Text → Bool
choice_of [] id = false
choice_of (c ∷ cs) id = let rest = choice_of cs id in if c.id == id then c.ticked else rest

unfoldable pub open_edit : Upstream → UpstreamsPage → UpstreamsPage
unfolding choice_of
open_edit u p = dialog_opened (
    reset_form_discovery (record p {
      editing = some u;
      form_error = [];
      revoke_line = [];
      form = record (form_from_upstream u) { register_client = choice_of p.register_for u.id };
    }))

unfoldable pub close_dialog : UpstreamsPage → UpstreamsPage
close_dialog p =
    reset_form_discovery
      (record p { open_dialog = false; form = record p.form { token = []; value = [] } })

abbrev pub is_gone : Failure → Bool
is_gone (api_error e) = eqb e.status 404
is_gone unreachable = false

abbrev pub load_items : UpstreamsPage → UpstreamsPage
load_items p = record p { loads = suc p.loads }

-- A failed request is told in the dialog that it came from, or else on the page.
unfoldable pub request_failed : Failure → ℕ → UpstreamsPage → UpstreamsPage
request_failed err mine p =
    let message = edit_error_message err upstream save in
    let reloaded = if is_gone err then load_items p else p in
    if p.open_dialog && eqb p.dialog_seq mine
    then record reloaded { form_error = message; form_error_seq = suc p.form_error_seq }
    else record reloaded { error = message }

unfoldable pub create : UpstreamsPage → UpstreamsPage
create p = record p { saving = true; calls = p.calls ++ creating p.dialog_seq ∷ [] }

-- `setSaving(false)` of the finally block.
abbrev pub saving_ends : ℕ → UpstreamsPage → UpstreamsPage
saving_ends mine p = if eqb p.dialog_seq mine then record p { saving = false } else p

unfoldable pub created : ℕ → UpstreamsPage → UpstreamsPage
unfolding close_dialog
created mine p = saving_ends mine (
    load_items
      (if eqb p.dialog_seq mine then record (close_dialog p) { slug_touched = false } else p))

unfoldable pub create_refused : ℕ → Failure → UpstreamsPage → UpstreamsPage
unfolding request_failed
create_refused mine err p = saving_ends mine (request_failed err mine p)

-- `{ ...m, [id]: choice }`
unfoldable pub put_choice : List Choice → Text → Bool → List Choice
put_choice [] id ticked = record { id = id; ticked = ticked } ∷ []
put_choice (c ∷ cs) id ticked =
    let rest = put_choice cs id ticked in
    if c.id == id then record { id = id; ticked = ticked } ∷ cs else c ∷ rest

abbrev pub remember_register : Text → Bool → UpstreamsPage → UpstreamsPage
remember_register id choice p =
    let next = put_choice p.register_for id choice in
    record p { register_for = next; storage = save_register_choices p.storage next }

abbrev is_end : Members → Bool
is_end end = true
is_end (member k v ms) = false

abbrev pub save_row : Upstream → UpstreamsPage → UpstreamsPage
save_row row p =
    let body = upstream_patch_body row p.form in
    let remembered =
      if row.auth_type == text "oauth" || p.form.auth_type == text "oauth"
      then remember_register row.id p.form.register_client p
      else p in
    if is_end body then close_dialog remembered else record remembered {
      saving = true;
      calls = p.calls ++ patching p.dialog_seq row.id body ∷ [];
    }

abbrev save_over : Option Upstream → UpstreamsPage → UpstreamsPage
save_over none p = p
save_over (some row) p = save_row row p

unfoldable pub save_edit : UpstreamsPage → UpstreamsPage
unfolding close_dialog put_choice
save_edit p = save_over p.editing p

abbrev pub put_item : Upstream → List Upstream → List Upstream
put_item saved items = map (λ x. if x.id == saved.id then saved else x) items

unfoldable pub patch_saved : ℕ → Upstream → UpstreamsPage → UpstreamsPage
unfolding close_dialog
patch_saved mine saved p =
    let shown = record p { items = put_item saved p.items } in
    saving_ends mine (if eqb p.dialog_seq mine then close_dialog shown else shown)

unfoldable pub submit : UpstreamsPage → UpstreamsPage
unfolding create save_edit
submit p =
    let cleared = record p { form_error = [] } in
    if client_secret_alone p.form
    then record cleared {
      form_error = client_secret_alone_sentence;
      form_error_seq = suc p.form_error_seq;
    }
    else if is_found p.editing
    then save_edit cleared
    else create cleared

-- An answer of a discovery, painted only while it is the newest.
unfoldable pub discovered : ℕ → Discovery → UpstreamsPage → UpstreamsPage
discovered mine result p =
    if eqb p.form_seq mine
    then record p { form_discovery = record { result = some result; pending = false; error = [] } }
    else p

unfoldable pub discovery_refused : ℕ → Failure → UpstreamsPage → UpstreamsPage
discovery_refused mine err p =
    if eqb p.form_seq mine
    then record p {
      form_discovery = record {
        result = none;
        pending = false;
        error = discovery_error_message err;
      };
    }
    else p

abbrev pub without_call : List Call → List Call → UpstreamsPage → UpstreamsPage
without_call before after p = record p { calls = before ++ after }

-- `mode === 'create'` is what draws the Discover button.
pub data Step : UpstreamsPage → UpstreamsPage → Type 0 where
  adds : {p : UpstreamsPage} → Step p (open_add p)
  edits : {p : UpstreamsPage} (u : Upstream) → Step p (open_edit u p)
  types :
      {p : UpstreamsPage} (t : TextField) (v : Text) → Step p (on_field_change (text_patch t v) p)
  ticks :
      {p : UpstreamsPage} (t : FlagField) (v : Bool) → Step p (on_field_change (flag_patch t v) p)
  picks_kind :
      {p : UpstreamsPage} (kind : Text)
      → Step p (on_field_change (form_patch (apply_kind_change p.form kind)) p)
  discovers : {p : UpstreamsPage} → p.editing ≡ none → Step p (discover_form p)
  submits : {p : UpstreamsPage} → Step p (submit p)
  closes : {p : UpstreamsPage} → Step p (close_dialog p)
  creates :
      {p : UpstreamsPage} (before after : List Call) (mine : ℕ)
      → p.calls ≡ before ++ (creating mine ∷ after)
      → Step p (created mine (without_call before after p))
  refuses_create :
      {p : UpstreamsPage} (before after : List Call) (mine : ℕ) (err : Failure)
      → p.calls ≡ before ++ (creating mine ∷ after)
      → Step p (create_refused mine err (without_call before after p))
  saves :
      {p : UpstreamsPage} (before after : List Call) (mine : ℕ) (id : Text) (body : Members)
      (saved : Upstream)
      → p.calls ≡ before ++ (patching mine id body ∷ after)
      → Step p (patch_saved mine saved (without_call before after p))
  refuses_save :
      {p : UpstreamsPage} (before after : List Call) (mine : ℕ) (id : Text) (body : Members)
      (err : Failure)
      → p.calls ≡ before ++ (patching mine id body ∷ after)
      → Step p (create_refused mine err (without_call before after p))
  answers :
      {p : UpstreamsPage} (before after : List Call) (mine : ℕ) (asked : UpstreamForm)
      (result : Discovery)
      → p.calls ≡ before ++ (discovering mine asked ∷ after)
      → Step p (discovered mine result (without_call before after p))
  refuses :
      {p : UpstreamsPage} (before after : List Call) (mine : ℕ) (asked : UpstreamForm)
      (err : Failure)
      → p.calls ≡ before ++ (discovering mine asked ∷ after)
      → Step p (discovery_refused mine err (without_call before after p))
  lists : {p : UpstreamsPage} (items : List Upstream) → Step p (record p { items = items })
  fails_list : {p : UpstreamsPage} (message : Text) → Step p (record p { error = message })

pub data Reach : UpstreamsPage → Type 0 where
  starts : (choices : List Choice) (storage : Option Storage) → Reach (fresh_page choices storage)
  steps : {p q : UpstreamsPage} → Reach p → Step p q → Reach q
