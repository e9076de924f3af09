-- ===== src/Graph/Builder/Slots.antt =====
-- Lists of workers in graph/builder.py: what is known of each, when one of them is done and when all
-- are.
use kyc_agent_nordvik.Prelude.{Option, none, some, List, [], ◌∷◌, ◌++◌, All}
use kyc_agent_nordvik.Graph.State.{Update}
use kyc_agent_nordvik.Graph.Builder.{Slot, todo, ready, all_ready, cons_update}

module _ (P : Slot → Type 0) where
  pub All-at : (before after : List Slot) (x : Slot) → All P (before ++ x ∷ after) → P x
  All-at [] after x h = h.0
  All-at (b ∷ before) after x h = All-at before after x h.1

  pub All-swap :
      (before after : List Slot) (x y : Slot)
      → P y
      → All P (before ++ x ∷ after)
      → All P (before ++ y ∷ after)
  All-swap [] after x y h k = (h, k.1)
  All-swap (b ∷ before) after x y h k = (k.0, All-swap before after x y h k.1)

  abbrev pub IfReady : Option (List Update) → Type 0
  IfReady none = Unit
  IfReady (some us) = All (λ u. P (ready u)) us

  cons_update-IfReady :
      (u : Update) (o : Option (List Update)) → P (ready u) → IfReady o → IfReady (cons_update u o)
  cons_update-IfReady u none h k = tt
  cons_update-IfReady u (some us) h k = (h, k)

  pub all_ready-IfReady : (slots : List Slot) → All P slots → IfReady (all_ready slots)
  unfolding all_ready
  all_ready-IfReady [] h = tt
  all_ready-IfReady (todo task ∷ slots) h = tt
  all_ready-IfReady (ready u ∷ slots) h =
      cons_update-IfReady u (all_ready slots) h.0 (all_ready-IfReady slots h.1)
