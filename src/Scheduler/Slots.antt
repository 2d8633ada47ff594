-- ===== src/Scheduler/Slots.antt =====
-- What one turn of the scheduler does to each slot.
use tradetrack_mt5_server.Prelude.{
  ℕ, zero, suc, ◌+◌, ◌≡◌, ◌⊎◌, inl, inr, Bool, true, false, some, List, [], ◌∷◌, get_elem?,
  get_elem?-map_from, arith, refl, Bool-cases, subst, ◌∙◌, ap,
}
use tradetrack_mt5_server.Scheduler.{
  SlotState, Turn, Settings, State, harvest, harvested, is_preparing, prepared, prepare, is_idle,
  stops, dispatch_unless, dispatch, dispatch_all, dispatched,
}

-- The way of slot `n` through a turn that goes on: its state after the harvest, perhaps the loss of
-- its inspection to the preparation, and perhaps a dispatch, which needs an idle slot.
pub record SlotTurn (c : Settings) (t : Turn) (n : ℕ) (x y : SlotState) : Type 0 where
  pub between : SlotState
  pub by_preparation : (between ≡ harvest c t n x) ⊎ (between ≡ prepared t n (harvest c t n x))
  pub by_dispatch :
      (y ≡ between) ⊎ ((is_idle t n between ≡ true) × (y ≡ (dispatch c t n between).0))

-- Element by element.
abbrev pub Changes : (ℕ → SlotState → SlotState → Type 0) → List SlotState → List SlotState → Type 0
Changes R xs ys =
    (n : ℕ) (x : SlotState)
    → get_elem? xs n ≡ some x
    → (y : SlotState) × (get_elem? ys n ≡ some y) × R n x y

abbrev Dispatched : Settings → Turn → ℕ → SlotState → SlotState → Type 0
Dispatched c t n x y = (y ≡ x) ⊎ ((is_idle t n x ≡ true) × (y ≡ (dispatch c t n x).0))

dispatch_one :
    (c : Settings) (t : Turn) (stopped : Bool) (i : ℕ) (s : SlotState)
    → Dispatched c t i s (dispatch_unless c t stopped i s).0
unfolding dispatch_unless
dispatch_one c t stopped i s = elim (Bool-cases (is_idle t i s)) [
  | inr waits ↦ inl (rw waits)
  | inl idle ↦ elim (Bool-cases stopped) [
    | inl stops ↦ inl (rw (idle, stops))
    | inr goes ↦ inr (idle, rw (idle, goes))
  ]
]

dispatch_all-Dispatched :
    (c : Settings) (t : Turn) (stopped : Bool) (k : ℕ) (xs : List SlotState) (n : ℕ) (x : SlotState)
    → get_elem? xs n ≡ some x
    → (y : SlotState) × (get_elem? (dispatch_all c t stopped k xs).0 n ≡ some y)
      × Dispatched c t (k + n) x y
unfolding dispatch_all
dispatch_all-Dispatched c t stopped k [] n x h = absurd (cc)
dispatch_all-Dispatched c t stopped k (s ∷ rest) zero x h =
    let same : s ≡ x = cc in
    let y = (dispatch_unless c t (stops t stopped k s) k s).0 in
    (
      y,
      refl,
      subst (λ j. Dispatched c t j x y) (omega arith)
          (subst (λ z. Dispatched c t k z y) same (dispatch_one c t (stops t stopped k s) k s)),
    )
dispatch_all-Dispatched c t stopped k (s ∷ rest) (suc n) x h =
    let (y, found, d) = dispatch_all-Dispatched c t (stops t stopped k s) (suc k) rest n x h in
    (y, found, subst (λ j. Dispatched c t j x y) (omega arith) d)

prepare_get :
    (c : Settings) (t : Turn) (s : State) (n : ℕ) (x : SlotState)
    → get_elem? s.slots n ≡ some x
    → (y : SlotState) × (get_elem? (prepare c t s).slots n ≡ some y)
      × ((y ≡ x) ⊎ (y ≡ prepared t n x))
unfolding prepare
prepare_get c t s n x h = elim (Bool-cases (is_preparing c t s)) [
  | inl now ↦ (
    prepared t n x,
    rw now (
        get_elem?-map_from (prepared t) 0 s.slots n h
        ∙ ap (λ j. some (prepared t j x)) (omega arith)),
    inr refl,
  )
  | inr later ↦ (x, rw later h, inl refl)
]

pub harvested_get :
    (c : Settings) (t : Turn) (s : State) (n : ℕ) (x : SlotState)
    → get_elem? s.slots n ≡ some x
    → get_elem? (harvested c t s).slots n ≡ some (harvest c t n x)
unfolding harvested
harvested_get c t s n x h =
    get_elem?-map_from (harvest c t) 0 s.slots n h ∙ ap (λ j. some (harvest c t j x)) (omega arith)

-- Every slot goes its way through a turn that goes on with dispatching.
pub dispatched-SlotTurn :
    (c : Settings) (t : Turn) (s : State)
    → Changes (SlotTurn c t) s.slots (dispatched c t (prepare c t (harvested c t s))).slots
unfolding dispatched
dispatched-SlotTurn c t s n x h =
    let h1 = harvested_get c t s n x h in
    let (p, h2, prep) = prepare_get c t (harvested c t s) n (harvest c t n x) h1 in
    let (y, h3, disp) =
      dispatch_all-Dispatched c t false 0 (prepare c t (harvested c t s)).slots n p h2 in
    (
      y,
      h3,
      record {
        between = p;
        by_preparation = prep;
        by_dispatch = subst (λ j. Dispatched c t j p y) (omega arith) disp;
      },
    )
