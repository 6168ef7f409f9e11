-- ===== src/Switch/Stp/Extremes.antt =====
-- What the two loops of RunSTP end with.
use netforge.Prelude.{
  ◌≡◌, refl, String, false, List, [], ◌∷◌, All, In, here, there, arith, text_lt, ◌⊎◌, inl, inr,
  if◌then◌else◌, Bool-cases, sym,
}
use netforge.Prelude.Texts.{text_lt_asym, text_lt_between, text_lt_irrefl}
use netforge.Switch.{Switch}
use netforge.Switch.Stp.{least_bridge, last_port}

-- No bridge of the list is less.
abbrev pub IsLeast : String → List Switch → Type 0
IsLeast root switches = All (λ other. text_lt other.bridge_id root ≡ false) switches

-- No port of the list is greater.
abbrev pub IsGreatest : String → List String → Type 0
IsGreatest last ports = All (λ p. text_lt last p ≡ false) ports

-- A bound that holds of the lesser of two texts holds of both.
lesser :
    (root a b : String)
    → text_lt (if text_lt b a then b else a) root ≡ false
    → (text_lt a root ≡ false) × (text_lt b root ≡ false)
lesser root a b h =
    ground (
      arith,
      text_lt_between a b root,
      text_lt_between b a root,
      text_lt_asym a b,
      text_lt_asym b a,
    )

greater :
    (last a b : String)
    → text_lt last (if text_lt a b then b else a) ≡ false
    → (text_lt last a ≡ false) × (text_lt last b ≡ false)
greater last a b h =
    ground (
      arith,
      text_lt_between last a b,
      text_lt_between last b a,
      text_lt_asym a b,
      text_lt_asym b a,
    )

pub least_bridge-IsLeast :
    (root : String) (switches : List Switch)
    → (text_lt root (least_bridge root switches) ≡ false)
      × IsLeast (least_bridge root switches) switches
unfolding least_bridge
least_bridge-IsLeast root [] = (text_lt_irrefl root, tt)
least_bridge-IsLeast root (other ∷ rest) =
    let next = if text_lt other.bridge_id root then other.bridge_id else root in
    let ih = least_bridge-IsLeast next rest in
    let both = lesser (least_bridge next rest) root other.bridge_id ih.0 in (both.0, (both.1, ih.1))

pub last_port-IsGreatest :
    (last : String) (ports : List String)
    → (text_lt (last_port last ports) last ≡ false) × IsGreatest (last_port last ports) ports
unfolding last_port
last_port-IsGreatest last [] = (text_lt_irrefl last, tt)
last_port-IsGreatest last (p ∷ rest) =
    let next = if text_lt last p then p else last in
    let ih = last_port-IsGreatest next rest in
    let both = greater (last_port next rest) last p ih.0 in (both.0, (both.1, ih.1))

-- They are texts of the lists, or the one that the loop starts from.
pub least_bridge-member :
    (root : String) (switches : List Switch)
    → (least_bridge root switches ≡ root)
      ⊎ ((other : Switch) × In other switches × (other.bridge_id ≡ least_bridge root switches))
unfolding least_bridge
least_bridge-member root [] = inl refl
least_bridge-member root (other ∷ rest) = elim (Bool-cases (text_lt other.bridge_id root)) [
  | inl less ↦ rw less (elim (least_bridge-member other.bridge_id rest) [
    | inl own ↦ inr (other, here refl, sym own)
    | inr (found, m, e) ↦ inr (found, there m, e)
  ])
  | inr kept ↦ rw kept (elim (least_bridge-member root rest) [
    | inl own ↦ inl own
    | inr (found, m, e) ↦ inr (found, there m, e)
  ])
]

pub last_port-member :
    (last : String) (ports : List String)
    → (last_port last ports ≡ last) ⊎ In (last_port last ports) ports
unfolding last_port
last_port-member last [] = inl refl
last_port-member last (p ∷ rest) = elim (Bool-cases (text_lt last p)) [
  | inl more ↦
      rw more
        (elim (last_port-member p rest) [ inl own ↦ inr (here (sym own)) | inr m ↦ inr (there m) ])
  | inr kept ↦
      rw kept (elim (last_port-member last rest) [ inl own ↦ inl own | inr m ↦ inr (there m) ])
]
