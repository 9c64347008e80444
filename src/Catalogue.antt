-- ===== src/Catalogue.antt =====
-- What a Load tools press learned about a target's members, and the verdicts that rest on it
-- (web/src/lib/catalogue.ts).
pub mod Verdicts
pub mod Covering
pub mod Blocks
pub mod Notes
pub mod Tests
use porymcp.Base.{
  ℕ, zero, suc, ◌+◌, ◌-◌, ◌*◌, ◌/◌, ◌%◌, ◌≤◌, ◌<◌, String, ◌≡◌, refl, sym, ap, ap₂, subst, ◌∙◌, ◌≢◌,
  ◌↔◌, ◌⊎◌, inl, inr, Bool, true, false, false≢true, true≢false, not, ◌&&◌, ◌||◌, Option, none,
  some, List, [], ◌∷◌, ◌++◌, map, append-nil, append_assoc, arith, ltb, leb, eqb, if◌then◌else◌,
  eqb_iff, eqb_refl, Bool-cases, Option-cases, Bool-eq, and_parts, or_cases, or_right, not-true,
  or_false, some_inj, not-false, length, take, drop, any, all, filter, find, is_empty, All, or_else,
  length-append, take-append_length, drop-append_length, any-append, any-filter, any_ext,
  All-weaken, All-append, All-middle, All-both, Exists, any_iff, all_iff, is_found, find-any, Text,
  text, ◌==◌, starts_with, join, truthy, or_text, eq_sound, eq_refl, eq_complete, eq_iff,
  starts_with-append, starts_with_rest, trim_end, trim_start, trim, includes, Distinct, SubsetOf,
  SameSet, includes-append, any_of_includes, all_of_includes, all_intro, any_witness, any-SameSet,
  without, includes-without, Distinct-without, length-without, length-SubsetOf, SameSet-of_length,
  digits_onto, decimal,
}
use porymcp.ToolEntry.{
  Side, allow, deny, EntryKind, tool, prefix, DiscoveredTool, is_allow, split_entry,
  match_tool_entry, scoped_tool_name, entry_problem,
}
use porymcp.Api.{Discovery}

pub record Member : Type 0 where
  pub upstream_id : Text
  pub slug : Text
  pub name : Text
  pub enabled : Bool
  pub transport : Text
  pub kind : Text

pub data LoadState : Type 0 where
  idle loading loaded failed : LoadState

pub record MemberCatalogue : Type 0 where
  pub member : Member
  pub open member use *
  pub state : LoadState
  pub tools : List DiscoveredTool
  pub truncated : Bool
  pub unnameable : ℕ
  pub error : Text

abbrev pub Catalogue : Type 0
Catalogue = List MemberCatalogue

unfoldable pub idle_member : Member → MemberCatalogue
idle_member m = record {
  member = m;
  state = idle;
  tools = [];
  truncated = false;
  unnameable = 0;
  error = [];
}

abbrev said : Option Text → Text
said none = []
said (some []) = []
said (some (c ∷ message)) = text " The server said: " ++ (c ∷ message)

unfoldable pub member_from_discovery : Member → Discovery → MemberCatalogue
unfolding idle_member
member_from_discovery m d =
    if not d.ok
    then record (idle_member m) {
      state = failed;
      error =
          or_text (or_else d.error []) (text "That server could not be reached.")
          ++ said d.upstream_message;
    }
    else record {
      member = m;
      state = loaded;
      tools = or_else d.tools [];
      truncated = d.truncated;
      unnameable = or_else d.unnameable_tools 0;
      error = [];
    }

abbrev pub is_loaded : LoadState → Bool
is_loaded loaded = true
is_loaded _ = false

abbrev pub is_failed : LoadState → Bool
is_failed failed = true
is_failed _ = false

abbrev pub is_idle : LoadState → Bool
is_idle idle = true
is_idle _ = false

unfoldable pub whole : MemberCatalogue → Bool
whole m = is_loaded m.state && not m.truncated

unfoldable pub catalogue_complete : Catalogue → Bool
catalogue_complete c = not (is_empty c) && all whole c

unfoldable pub incomplete_members : Catalogue → List Text
incomplete_members c = map (λ m. m.name) (filter (λ m. not (whole m)) c)

-- Some member advertises a tool that the entry matches.
unfoldable pub advertised : Text → Bool → Catalogue → Bool
advertised e is_prefix c =
    any (λ m. any (λ (t : DiscoveredTool). match_tool_entry e m.slug t.name is_prefix) m.tools) c

unfoldable pub unmatched_entries : List Text → Catalogue → Bool → List Text
unmatched_entries entries c is_prefix =
    if not (catalogue_complete c) then [] else filter (λ e. not (advertised e is_prefix c)) entries

unfoldable pub skipped : Side → Bool → Text → Bool
skipped side group_target e = is_allow side && group_target && not (split_entry e).scoped

unfoldable pub covering_entry : Text → Text → List Text → List Text → Side → Bool → Text
covering_entry slug name tools prefixes side group_target =
    let own = scoped_tool_name slug name in
    or_else
      (find
        (λ e.
          not (e == own) && not (skipped side group_target e) && match_tool_entry e slug name false)
        tools)
      (or_else
        (find (λ e. not (skipped side group_target e) && match_tool_entry e slug name true)
          prefixes)
        [])

-- The inner loop of `blocksEverything`: `none` is its `return false`, and `seen` is kept on.
unfoldable pub blocks_tools : (Text → Text → Bool) → Text → Bool → List DiscoveredTool → Option Bool
blocks_tools permits slug seen [] = some seen
blocks_tools permits slug seen (t ∷ ts) =
    let rest = blocks_tools permits slug true ts in if permits slug t.name then none else rest

unfoldable pub blocks_members : (Text → Text → Bool) → Bool → Catalogue → Bool
blocks_members permits seen [] = seen
blocks_members permits seen (m ∷ ms) = elim m.enabled [
  | false ↦ blocks_members permits seen ms
  | true ↦ elim (blocks_tools permits m.slug seen m.tools) [
    | none ↦ false
    | some seen' ↦ blocks_members permits seen' ms
  ]
]

unfoldable pub blocks_everything : (Text → Text → Bool) → Catalogue → Bool
blocks_everything permits c =
    if not (catalogue_complete c) then false else blocks_members permits false c
