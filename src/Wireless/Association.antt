-- ===== src/Wireless/Association.antt =====
-- Whose frames an access point bridges, after any requests to associate.
use netforge.Prelude.{
  ◌≡◌, refl, String, Bool, true, false, ◌||◌, not, none, some, List, [], ◌∷◌, arith, ◌==◌,
  string_eq, ◌&&◌, if◌then◌else◌,
}
use netforge.Prelude.GoMap.{get, get-put}
use netforge.Wireless.{AccessPoint, is_refused, associate, forward_wireless}

-- A station and the password that it gives.
abbrev pub Request : Type 0
Request = String × String

abbrev pub associate_all : AccessPoint → List Request → AccessPoint
associate_all ap [] = ap
associate_all ap ((mac, password) ∷ rest) = associate_all (associate ap mac password).0 rest

-- The station has asked with a password that the access point takes.
abbrev pub was_let_in : AccessPoint → String → List Request → Bool
was_let_in ap client_mac [] = false
was_let_in ap client_mac ((mac, password) ∷ rest) =
    (mac == client_mac && not (is_refused ap password)) || was_let_in ap client_mac rest

abbrev pub is_client : AccessPoint → String → Bool
is_client ap client_mac = elim (get ap.clients client_mac) [ none ↦ false | some client ↦ true ]

is_client-associate :
    (ap : AccessPoint) (mac password client_mac : String)
    → is_client (associate ap mac password).0 client_mac
      ≡ ((mac == client_mac && not (is_refused ap password)) || is_client ap client_mac)
unfolding associate
is_client-associate ap mac password client_mac = ground (
  arith,
  get-put ap.clients mac client_mac (record { mac = mac; ip = ""; ipv6 = ""; associated = true }),
)

associate-same :
    (ap : AccessPoint) (mac password : String)
    → ((associate ap mac password).0.security ≡ ap.security)
      × ((associate ap mac password).0.password ≡ ap.password)
unfolding associate
associate-same ap mac password = ground arith

was_let_in-same :
    (ap other : AccessPoint) (client_mac : String) (requests : List Request)
    → other.security ≡ ap.security
    → other.password ≡ ap.password
    → was_let_in other client_mac requests ≡ was_let_in ap client_mac requests
was_let_in-same ap other client_mac [] s p = refl
was_let_in-same ap other client_mac ((mac, password) ∷ rest) s p =
    rw (s, p, was_let_in-same ap other client_mac rest s p) refl

is_client-associate_all :
    (ap : AccessPoint) (client_mac : String) (requests : List Request)
    → is_client (associate_all ap requests) client_mac
      ≡ (was_let_in ap client_mac requests || is_client ap client_mac)
is_client-associate_all ap client_mac [] = refl
is_client-associate_all ap client_mac ((mac, password) ∷ rest) =
    let next = (associate ap mac password).0 in
    let same = associate-same ap mac password in
    let late = was_let_in-same ap next client_mac rest same.0 same.1 in
    ground (
      arith,
      is_client-associate_all next client_mac rest,
      is_client-associate ap mac password client_mac,
      late,
    )

forward_wireless-is_client :
    {W : Type 0} (ap : AccessPoint) (client_mac : String) (wire : W)
    → forward_wireless ap client_mac wire ≡ (if is_client ap client_mac then some wire else none)
unfolding forward_wireless
forward_wireless-is_client ap client_mac wire = ground arith

-- After any requests to associate, an access point bridges the frame of a station unchanged where
-- the station was a client before or has asked with a password that the access point takes, which
-- under wpa2 is its own, and drops the frame of every other station.
pub forward_wireless-associate_all :
    {W : Type 0} (ap : AccessPoint) (client_mac : String) (requests : List Request) (wire : W)
    → forward_wireless (associate_all ap requests) client_mac wire
      ≡ (if was_let_in ap client_mac requests || is_client ap client_mac then some wire else none)
forward_wireless-associate_all ap client_mac requests wire =
    rw
      (
        forward_wireless-is_client (associate_all ap requests) client_mac wire,
        is_client-associate_all ap client_mac requests,
      )
      refl
