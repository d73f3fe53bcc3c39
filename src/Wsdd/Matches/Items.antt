-- ===== src/Wsdd/Matches/Items.antt =====
-- What `matches_` (wsdd/remotediscovery_service.cpp) holds: nothing is ever removed from it.
use onvifxx.Base.{
  ℕ, ◌≡◌, refl, sym, ap, ◌∙◌, List, [], ◌∷◌, ◌++◌, map, append_assoc, append-nil, arith,
}
use onvifxx.Wsdd.Gsoap.{Runtime}
use onvifxx.Wsdd.Matches.{Place, Match, Vector, reserve, push_back, match_of, fill}
use onvifxx.Wsdd.Messages.{ProbeMatch}

pub reserve-items : (n : ℕ) (v : Vector) → (reserve n v).items ≡ v.items
unfolding reserve
reserve-items n v = ground arith

push_back-items :
    (grow : ℕ → ℕ) (m : Match) (v : Vector) → (push_back grow m v).items ≡ v.items ++ m ∷ []
unfolding push_back
push_back-items grow m v = refl

pub fill-items :
    (rt : Runtime) (grow : ℕ → ℕ) (items : List ProbeMatch) (v : Vector) (places : List Place)
    → (fill rt grow items v places).0.items ≡ v.items ++ map (match_of rt) items
unfolding fill
fill-items rt grow [] v places = sym (append-nil v.items)
fill-items rt grow (item ∷ items) v places =
    fill-items rt grow items _ _
    ∙ ap (λ l. l ++ map (match_of rt) items) (push_back-items grow (match_of rt item) v)
    ∙ append_assoc v.items (match_of rt item ∷ []) (map (match_of rt) items)
