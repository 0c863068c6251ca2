-- ===== src/Wait/Finding.antt =====
-- What the program finds.
use klever_subscriber.Base.{
  ◌≡◌, refl, ◌∙◌, ap, inl, inr, Bool, true, false, ◌&&◌, ◌||◌, List, [], ◌∷◌, ◌++◌, some, ◌==◌,
  string_eq, All, map, arith, Bool-cases,
}
use klever_subscriber.Event.{Event}
use klever_subscriber.Wait.{Libraries, Target, prints, Input, arrives, pretty_or_raw, wait_events}

-- The test of the loop.
abbrev pub is_wanted : Target → Event → Bool
is_wanted t evt = evt.type == t.event_type && t.matches evt

abbrev pub has_wanted : Target → List Event → Bool
has_wanted t [] = false
has_wanted t (evt ∷ evts) = is_wanted t evt || has_wanted t evts

-- The first of the events that is wanted.
pub record FirstWanted (t : Target) (evts : List Event) : Type 0 where
  pub before : List Event
  pub found : Event
  pub after : List Event
  pub split : evts ≡ before ++ found ∷ after
  pub unwanted : All (λ evt. is_wanted t evt ≡ false) before
  pub wanted : is_wanted t found ≡ true

-- If one of the events that arrive is wanted, then the loop ends, whatever comes later, and prints the
-- first one that is: indented, or its raw bytes if it cannot be encoded.
pub wait_events-FirstWanted :
    (lib : Libraries) (t : Target) (evts : List Event) (later : List Input)
    → has_wanted t evts ≡ true
    → (f : FirstWanted t evts) × (wait_events lib t (map arrives evts ++ later)
        ≡ some (prints (pretty_or_raw (lib.marshal_indent f.found) f.found.raw)))
unfolding wait_events
wait_events-FirstWanted lib t [] later h = absurd (ground arith)
wait_events-FirstWanted lib t (evt ∷ evts) later h = elim (Bool-cases (is_wanted t evt)) [
  | inl hit ↦ (
    record { before = []; found = evt; after = evts; split = refl; unwanted = tt; wanted = hit },
    ground (arith, hit),
  )
  | inr miss ↦
      let (f, eq) = wait_events-FirstWanted lib t evts later (ground (arith, miss, h)) in
      (
        record {
          before = evt ∷ f.before;
          found = f.found;
          after = f.after;
          split = ap (◌∷◌ evt) f.split;
          unwanted = (miss, f.unwanted);
          wanted = f.wanted;
        },
        ground (arith, miss) ∙ eq,
      )
]
