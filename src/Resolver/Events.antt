-- ===== src/Resolver/Events.antt =====
-- src/pkgcore/resolver/util.py: what of a resolution's record is shown of a failure. A tuple has
-- its name, and the package or the Boolean behind it. `none` stands for `last` before any package.
use pkgcore.Prelude.{
  ℕ, Bool, true, false, not, List, [], ◌∷◌, ◌++◌, Option, none, some, if◌then◌else◌,
}

mutual
  pub data Event : Type 0 where
    inspecting : ℕ → Event
    viable : Bool → Event
    other : Event
    frame : Frame → Event

  -- a frame with `ignored` and `succeeded`
  pub data Frame : Type 0 where
    attempt : Bool → Bool → Events → Frame

  pub data Events : Type 0 where
    nil : Events
    cons : Event → Events → Events

abbrev pub succeeded : Frame → Bool
succeeded (attempt ignored s events) = s

unfoldable pub fails_filter : Event → Bool
fails_filter (inspecting p) = false
fails_filter (viable b) = not b
fails_filter other = true
fails_filter (frame f) = not (succeeded f)

-- `[y for y in x.events if filter_func(y)]`
abbrev pub filtered : (Event → Bool) → Events → List Event
filtered f nil = []
filtered f (cons e es) = let rest = filtered f es in if f e then e ∷ rest else rest

-- What an event adds to its group: nothing, the events of an ignored frame, or itself.
abbrev pub kept : (Event → Bool) → Event → List Event
kept f (frame (attempt ignored s events)) =
    if f (frame (attempt ignored s events))
    then (if ignored then filtered f events else frame (attempt ignored s events) ∷ [])
    else []
kept f x = if f x then x ∷ [] else []

-- `if l: yield last, l`
abbrev pub yield_group : Option ℕ → List Event → List (ℕ × List Event)
yield_group (some last) (x ∷ l) = (last, x ∷ l) ∷ []
yield_group _ _ = []

-- The loop of `group_attempts(sequence, filter_func)`, with `last` and `l`.
unfoldable pub group_attempts :
    (Event → Bool) → Option ℕ → List Event → Events → List (ℕ × List Event)
group_attempts f last l nil = yield_group last l
group_attempts f last l (cons (inspecting p) es) =
    yield_group last l ++ group_attempts f (some p) [] es
group_attempts f none l (cons e es) = group_attempts f none l es
group_attempts f (some p) l (cons e es) = group_attempts f (some p) (l ++ kept f e) es

-- The events before the first package, and the packages in order, each with what is kept of the
-- events up to the next one.
unfoldable pub segments : (Event → Bool) → Events → List Event × List (ℕ × List Event)
segments f nil = ([], [])
segments f (cons (inspecting p) es) = let (l, groups) = segments f es in ([], (p, l) ∷ groups)
segments f (cons e es) = let (l, groups) = segments f es in (kept f e ++ l, groups)

abbrev pub nonempty : List (ℕ × List Event) → List (ℕ × List Event)
nonempty [] = []
nonempty ((p, []) ∷ groups) = nonempty groups
nonempty ((p, x ∷ l) ∷ groups) = (p, x ∷ l) ∷ nonempty groups
