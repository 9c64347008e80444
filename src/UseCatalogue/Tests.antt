-- ===== src/UseCatalogue/Tests.antt =====
-- Presses in a dialog, and the theorems on its catalogue there.
use porymcp.Base.{ℕ, ◌≤◌, ◌≡◌, refl, true, List, [], ◌∷◌, map}
use porymcp.Catalogue.{Member}
use porymcp.DiscoverMany.{fresh_run, picker_in_flight}
use porymcp.UseCatalogue.{
  Going, CatalogueHook, mounted, load, catalogue_of, Reach, mounts, steps, presses,
}
use porymcp.UseCatalogue.Slot.{calls_of, Reach-calls_of}
use porymcp.UseCatalogue.Shown.{catalogue_of-members}

abbrev a_member : ℕ → Member
a_member id = record {
  upstream_id = id ∷ [];
  slug = id ∷ [];
  name = id ∷ [];
  enabled = true;
  transport = [];
  kind = [];
}

abbrev three : List Member
three = a_member 1 ∷ a_member 2 ∷ a_member 3 ∷ []

-- The dialog's first press, and the second, which is dropped.
abbrev pressed_once : CatalogueHook
unfolding load
pressed_once = load [] three (mounted 0)

pressed-Reach : Reach pressed_once
unfolding pressed_once
pressed-Reach = steps (mounts 0) (presses [] three)

second_press : load [] three pressed_once ≡ pressed_once
unfolding pressed_once load
second_press = refl

Reach-calls_of_example : calls_of 0 pressed_once.runs ≤ picker_in_flight
Reach-calls_of_example = Reach-calls_of pressed_once 0 pressed-Reach

-- A run of the first opening, while the dialog is open a second time.
abbrev left_over : Going
left_over = record { started = 0; run = record (fresh_run three) { waiting = a_member 1 ∷ [] } }

abbrev reopened : CatalogueHook
reopened = record (mounted 1) { runs = left_over ∷ [] }

catalogue_of-members_example : map (λ e. e.member) (catalogue_of [] three) ≡ three
catalogue_of-members_example = catalogue_of-members [] three
