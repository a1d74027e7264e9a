-- ===== src/Channel/Inside.antt =====
-- Who can be inside the channel at one time, and what each step makes of that.
use libglim.Base.{◌≡◌, ◌≢◌, refl, Bool, true, false, List, [], ◌∷◌, ◌++◌}
use libglim.Channel.{
  Phase, empty, writing, full, Sender, begun, stored, filled, Receiver, holding, taken, Channel,
}

-- Who is inside the channel.
pub data Inside (V : Type 0) : Type 0 where
  nobody : Inside V
  writer storer filler waiting : V → Inside V
  reader leaver : V → Inside V
  -- Nobody any more: the move of this value has thrown.
  stuck : V → Inside V

pub split_nil : {A : Type 0} (before after : List A) (x : A) → [] ≢ before ++ x ∷ after
split_nil [] after x e = cc
split_nil (y ∷ before) after x e = cc

-- An element found in a list of one is that one.
split_one :
    {A : Type 0} (before after : List A) (x y : A)
    → y ∷ [] ≡ before ++ x ∷ after
    → (before ≡ []) × (after ≡ []) × (y ≡ x)
split_one [] after x y e = (refl, cc, cc)
split_one (z ∷ before) after x y e =
    let tail : [] ≡ before ++ x ∷ after = cc in absurd (split_nil before after x tail)

module _ {V : Type 0} where
  abbrev pub senders_of : Inside V → List (Sender V)
  senders_of nobody = []
  senders_of (writer v) = begun v ∷ []
  senders_of (storer v) = stored v ∷ []
  senders_of (filler v) = filled v ∷ []
  senders_of (waiting v) = []
  senders_of (reader v) = []
  senders_of (leaver v) = []
  senders_of (stuck v) = []

  abbrev pub receivers_of : Inside V → List (Receiver V)
  receivers_of (reader v) = holding ∷ []
  receivers_of (leaver v) = taken v ∷ []
  receivers_of nobody = []
  receivers_of (writer v) = []
  receivers_of (storer v) = []
  receivers_of (filler v) = []
  receivers_of (waiting v) = []
  receivers_of (stuck v) = []

  abbrev pub phase_of : Inside V → Phase
  phase_of nobody = empty
  phase_of (writer v) = writing
  phase_of (storer v) = writing
  phase_of (filler v) = full
  phase_of (waiting v) = full
  phase_of (reader v) = full
  phase_of (leaver v) = full
  phase_of (stuck v) = full

  abbrev pub locked_of : Inside V → Bool
  locked_of (waiting v) = false
  locked_of nobody = true
  locked_of (writer v) = true
  locked_of (storer v) = true
  locked_of (filler v) = true
  locked_of (reader v) = true
  locked_of (leaver v) = true
  locked_of (stuck v) = true

  -- The value whose move has thrown.
  abbrev pub lost : Inside V → List V
  lost (stuck v) = v ∷ []
  lost nobody = []
  lost (writer v) = []
  lost (storer v) = []
  lost (filler v) = []
  lost (waiting v) = []
  lost (reader v) = []
  lost (leaver v) = []

  -- The value that was stored and not taken yet.
  abbrev pub pending : Inside V → List V
  pending nobody = []
  pending (writer v) = []
  pending (storer v) = v ∷ []
  pending (filler v) = v ∷ []
  pending (waiting v) = v ∷ []
  pending (reader v) = v ∷ []
  pending (leaver v) = []
  pending (stuck v) = []

  -- A pending value is the one in the channel.
  abbrev pub Present : List V → V → Type 0
  Present [] v = Unit
  Present (x ∷ xs) v = v ≡ x

  pub record Explains (i : Inside V) (c : Channel V) : Type 0 where
    pub senders : c.senders ≡ senders_of i
    pub receivers : c.receivers ≡ receivers_of i
    pub phase : c.phase ≡ phase_of i
    pub locked : c.locked ≡ locked_of i
    pub value : Present (pending i) c.value
    pub thrown : c.thrown ≡ lost i
    pub order : c.sent ≡ c.received ++ (pending i ++ lost i)

  pub writer_at :
      (i : Inside V) (before after : List (Sender V)) (v : V)
      → senders_of i ≡ before ++ begun v ∷ after
      → (i ≡ writer v) × (before ≡ []) × (after ≡ [])
  writer_at nobody before after v e = absurd (split_nil before after _ e)
  writer_at (writer w) before after v e = let (a, b, c) = split_one before after _ _ e in (cc, a, b)
  writer_at (storer w) before after v e = let (a, b, c) = split_one before after _ _ e in cc
  writer_at (filler w) before after v e = let (a, b, c) = split_one before after _ _ e in cc
  writer_at (waiting w) before after v e = absurd (split_nil before after _ e)
  writer_at (reader w) before after v e = absurd (split_nil before after _ e)
  writer_at (leaver w) before after v e = absurd (split_nil before after _ e)
  writer_at (stuck w) before after v e = absurd (split_nil before after _ e)

  pub storer_at :
      (i : Inside V) (before after : List (Sender V)) (v : V)
      → senders_of i ≡ before ++ stored v ∷ after
      → (i ≡ storer v) × (before ≡ []) × (after ≡ [])
  storer_at nobody before after v e = absurd (split_nil before after _ e)
  storer_at (writer w) before after v e = let (a, b, c) = split_one before after _ _ e in cc
  storer_at (storer w) before after v e = let (a, b, c) = split_one before after _ _ e in (cc, a, b)
  storer_at (filler w) before after v e = let (a, b, c) = split_one before after _ _ e in cc
  storer_at (waiting w) before after v e = absurd (split_nil before after _ e)
  storer_at (reader w) before after v e = absurd (split_nil before after _ e)
  storer_at (leaver w) before after v e = absurd (split_nil before after _ e)
  storer_at (stuck w) before after v e = absurd (split_nil before after _ e)

  pub filler_at :
      (i : Inside V) (before after : List (Sender V)) (v : V)
      → senders_of i ≡ before ++ filled v ∷ after
      → (i ≡ filler v) × (before ≡ []) × (after ≡ [])
  filler_at nobody before after v e = absurd (split_nil before after _ e)
  filler_at (writer w) before after v e = let (a, b, c) = split_one before after _ _ e in cc
  filler_at (storer w) before after v e = let (a, b, c) = split_one before after _ _ e in cc
  filler_at (filler w) before after v e = let (a, b, c) = split_one before after _ _ e in (cc, a, b)
  filler_at (waiting w) before after v e = absurd (split_nil before after _ e)
  filler_at (reader w) before after v e = absurd (split_nil before after _ e)
  filler_at (leaver w) before after v e = absurd (split_nil before after _ e)
  filler_at (stuck w) before after v e = absurd (split_nil before after _ e)

  pub reader_at :
      (i : Inside V) (before after : List (Receiver V))
      → receivers_of i ≡ before ++ holding ∷ after
      → ((v : V) × (i ≡ reader v)) × (before ≡ []) × (after ≡ [])
  reader_at nobody before after e = absurd (split_nil before after _ e)
  reader_at (writer w) before after e = absurd (split_nil before after _ e)
  reader_at (storer w) before after e = absurd (split_nil before after _ e)
  reader_at (filler w) before after e = absurd (split_nil before after _ e)
  reader_at (waiting w) before after e = absurd (split_nil before after _ e)
  reader_at (reader w) before after e =
      let (a, b, c) = split_one before after _ _ e in ((w, refl), a, b)
  reader_at (leaver w) before after e = let (a, b, c) = split_one before after _ _ e in cc
  reader_at (stuck w) before after e = absurd (split_nil before after _ e)

  pub leaver_at :
      (i : Inside V) (before after : List (Receiver V)) (v : V)
      → receivers_of i ≡ before ++ taken v ∷ after
      → (i ≡ leaver v) × (before ≡ []) × (after ≡ [])
  leaver_at nobody before after v e = absurd (split_nil before after _ e)
  leaver_at (writer w) before after v e = absurd (split_nil before after _ e)
  leaver_at (storer w) before after v e = absurd (split_nil before after _ e)
  leaver_at (filler w) before after v e = absurd (split_nil before after _ e)
  leaver_at (waiting w) before after v e = absurd (split_nil before after _ e)
  leaver_at (reader w) before after v e = let (a, b, c) = split_one before after _ _ e in cc
  leaver_at (leaver w) before after v e = let (a, b, c) = split_one before after _ _ e in (cc, a, b)
  leaver_at (stuck w) before after v e = absurd (split_nil before after _ e)

  pub nobody_lem : (i : Inside V) → phase_of i ≡ empty → i ≡ nobody
  nobody_lem nobody e = refl
  nobody_lem (writer w) e = cc
  nobody_lem (storer w) e = cc
  nobody_lem (filler w) e = cc
  nobody_lem (waiting w) e = cc
  nobody_lem (reader w) e = cc
  nobody_lem (leaver w) e = cc
  nobody_lem (stuck w) e = cc

  pub waiting_lem : (i : Inside V) → locked_of i ≡ false → (v : V) × (i ≡ waiting v)
  waiting_lem (waiting w) e = (w, refl)
  waiting_lem nobody e = cc
  waiting_lem (writer w) e = cc
  waiting_lem (storer w) e = cc
  waiting_lem (filler w) e = cc
  waiting_lem (reader w) e = cc
  waiting_lem (leaver w) e = cc
  waiting_lem (stuck w) e = cc
