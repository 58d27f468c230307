-- ===== src/Fusion/Slots/Writes.antt =====
-- What a write of a link does to a table of the timing wheel.
use omnidiscover.Prelude.{
  ℕ, ◌<◌, ◌≡◌, refl, ◌∙◌, Bool, true, false, ◌&&◌, List, Option, none, some, ◌==◌, ==_refl,
  if◌then◌else◌, split_eq, length, set, length-set,
}
use omnidiscover.Go.{Go, ret, panic, hang, ◌>>=◌, index}
use omnidiscover.Go.Ensures.{index-ret, index-lt, write-set, index-set}
use omnidiscover.Fusion.Slots.{Cell, Slots, set_next, set_prev}
use omnidiscover.Fusion.Slots.Around.{is_at, is_none}

-- What a write of a link leaves: all cells but one field of one, all heads but at most one
pub record Written (w w' : Slots) (change : ℕ → Cell → Cell) (slot : ℕ) (at_head : Bool)
    (head : Option ℕ) : Type 0 where
  pub cells : (j : ℕ) → index w'.cells j ≡ (index w.cells j >>= λ c. ret (change j c))
  pub heads :
      (t : ℕ) → index w'.heads t ≡ (if at_head && slot == t then ret head else index w.heads t)
  pub same_cells : length w'.cells ≡ length w.cells
  pub same_heads : length w'.heads ≡ length w.heads

abbrev pub with_next : Option ℕ → Option ℕ → ℕ → Cell → Cell
with_next p next j c = if is_at p j then record c { wheel_next = next } else c

abbrev pub with_prev : Option ℕ → Option ℕ → ℕ → Cell → Cell
with_prev n prev j c = if is_at n j then record c { wheel_prev = prev } else c

abbrev pub Reaches : Option ℕ → ℕ → Type 0
Reaches none n = Unit
Reaches (some i) n = i < n

pub ret_id : {A : Type 0} (m : Go A) → m ≡ (m >>= λ x. ret x)
ret_id (ret x) = refl
ret_id panic = refl
ret_id hang = refl

-- A cell that is written over by itself, changed
change_at :
    (cells : List Cell) (i j : ℕ) (c : Cell) (f : Cell → Cell)
    → index cells i ≡ ret c
    → index (set cells i (f c)) j ≡ (index cells j >>= λ x. ret (if i == j then f x else x))
change_at cells i j c f h =
    index-set cells i j (f c) (index-lt cells i h)
    ∙ split_eq i j (λ e same. rw (e, ← same, h)) λ e other. rw e (ret_id (index cells j))

pub set_next-Written :
    (w : Slots) (slot : ℕ) (p next : Option ℕ)
    → Reaches p (length w.cells)
    → slot < length w.heads
    → (w' : Slots) × (set_next w slot p next ≡ ret w')
      × Written w w' (with_next p next) slot (is_none p) next
unfolding set_next
set_next-Written w slot none next r h = (
  record w { heads = set w.heads slot next },
  rw (write-set w.heads slot next h),
  record {
    cells = λ j. ret_id (index w.cells j);
    heads = λ t. index-set w.heads slot t next h;
    same_cells = refl;
    same_heads = length-set w.heads slot next;
  },
)
set_next-Written w slot (some p) next r h =
    let (c, found) = index-ret w.cells p r in
    (
      record w { cells = set w.cells p (record c { wheel_next = next }) },
      rw (found, write-set w.cells p (record c { wheel_next = next }) r),
      record {
        cells = λ j. change_at w.cells p j c (λ x. record x { wheel_next = next }) found;
        heads = λ t. refl;
        same_cells = length-set w.cells p _;
        same_heads = refl;
      },
    )

pub set_prev-Written :
    (w : Slots) (n prev : Option ℕ)
    → Reaches n (length w.cells)
    → (w' : Slots) × (set_prev w n prev ≡ ret w') × Written w w' (with_prev n prev) 0 false none
unfolding set_prev
set_prev-Written w none prev r = (
  w,
  refl,
  record {
    cells = λ j. ret_id (index w.cells j);
    heads = λ t. refl;
    same_cells = refl;
    same_heads = refl;
  },
)
set_prev-Written w (some n) prev r =
    let (c, found) = index-ret w.cells n r in
    (
      record w { cells = set w.cells n (record c { wheel_prev = prev }) },
      rw (found, write-set w.cells n (record c { wheel_prev = prev }) r),
      record {
        cells = λ j. change_at w.cells n j c (λ x. record x { wheel_prev = prev }) found;
        heads = λ t. refl;
        same_cells = length-set w.cells n _;
        same_heads = refl;
      },
    )

pub reach : (o : Option ℕ) (n : ℕ) → ((p : ℕ) → is_at o p ≡ true → p < n) → Reaches o n
reach none n h = tt
reach (some p) n h = h p (==_refl p)
