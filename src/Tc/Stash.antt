-- ===== src/Tc/Stash.antt =====
-- The descriptors of the frames that wait in a transparent clock.
-- None of the descriptors matches.

use lyp_lyl.Prelude.{
  ◌==◌, All, ℕ, ◌≡◌, refl, ap, ◌≢◌, true, false, none, some, List, [], ◌∷◌, ◌++◌, arith,
}
use lyp_lyl.Tmv.{Tmv}
use lyp_lyl.Tc.{
  or_else, first_match, remove_txd, tc_complete_request, Frame, Txd, TcPort, TcMatch, mismatch,
  Medium,
}

abbrev pub Unmatched : (Txd → TcMatch) → List Txd → Type 0
Unmatched match_of ts = All (λ (t : Txd). match_of t ≡ mismatch) ts

abbrev pub Fresh : ℕ → List Txd → Type 0
Fresh slot ts = All (λ (t : Txd). t.slot ≢ slot) ts

pub first_match-snoc :
    (match_of : Txd → TcMatch) (ts : List Txd) (t : Txd) (k : TcMatch)
    → Unmatched match_of ts
    → match_of t ≡ k
    → first_match match_of (ts ++ (t ∷ [])) ≡ or_else k t none
unfolding first_match
first_match-snoc match_of [] t k h e = rw e refl
first_match-snoc match_of (x ∷ ts) t k h e = rw h.0 (first_match-snoc match_of ts t k h.1 e)

pub first_match-Unmatched :
    (match_of : Txd → TcMatch) (ts : List Txd)
    → Unmatched match_of ts
    → first_match match_of ts ≡ none
unfolding first_match
first_match-Unmatched match_of [] h = refl
first_match-Unmatched match_of (x ∷ ts) h = rw h.0 (first_match-Unmatched match_of ts h.1)

pub remove_txd-snoc :
    (ts : List Txd) (t : Txd) → Fresh t.slot ts → remove_txd t.slot (ts ++ (t ∷ [])) ≡ ts
unfolding remove_txd
remove_txd-snoc [] t h = let e : (t.slot == t.slot) ≡ true = ground arith in rw e refl
remove_txd-snoc (x ∷ ts) t h =
    let e : (x.slot == t.slot) ≡ false = ground arith in
    rw e (ap (λ l. x ∷ l) (remove_txd-snoc ts t h.1))

abbrev pub kept : TcPort → Frame → Tmv → ℕ → Txd
kept q m residence slot = record {
  slot = slot;
  msg = m;
  residence = residence;
  ingress_port = q.portnum;
}

pub tc_complete_request-stored :
    (medium : Medium) (q p : TcPort) (m : Frame) (slot : ℕ) (r : Tmv)
    → medium.tc_allocate p.portnum m ≡ some slot
    → tc_complete_request medium q p m r
      ≡ (record p { tc_transmitted = p.tc_transmitted ++ (kept q m r slot ∷ []) }, [])
unfolding tc_complete_request
tc_complete_request-stored medium q p m slot r room = rw (room, tc_complete_request) refl
