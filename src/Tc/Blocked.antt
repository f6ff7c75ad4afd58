-- ===== src/Tc/Blocked.antt =====
-- Which way frames go through a transparent clock.
-- The states of the way from the master to the slaves.

use lyp_lyl.Prelude.{◌==◌, if◌then◌else◌, ℕ, ◌≡◌, ◌≢◌, Bool, true, false, not, ◌&&◌, ◌||◌, arith}
use lyp_lyl.Fsm.{PortState, master, uncalibrated, slave, grand_master}
use lyp_lyl.Tc.{delay_req_type, ingress_blocked, egress_blocked, tc_blocked, Frame, TcPort}

abbrev pub is_upstream : PortState → Bool
is_upstream uncalibrated = true
is_upstream slave = true
is_upstream s = false

abbrev pub is_downstream : PortState → Bool
is_downstream master = true
is_downstream grand_master = true
is_downstream s = false

ways_lem :
    (s t : PortState) (delay_req : Bool)
    → (if ingress_blocked s delay_req then true else egress_blocked t delay_req)
      ≡ not (
          if delay_req
          then (is_downstream s || is_upstream s) && is_upstream t
          else is_upstream s && is_downstream t)
unfolding ingress_blocked egress_blocked
ways_lem s t delay_req = ground arith

-- On a spanning tree, in the clock's own domain and between two different ports of which the egress port is not the port 0, a frame passes from an upstream port to a downstream one, except for a Delay_Req message, which passes from an upstream or a downstream port to an upstream one; a port is upstream in the states UNCALIBRATED and SLAVE, and downstream in the states MASTER and GRAND_MASTER.
pub tc_blocked-ways :
    (domain : ℕ) (q p : TcPort) (m : Frame)
    → q.portnum ≢ p.portnum
    → p.portnum ≢ 0
    → q.tc_spanning_tree ≡ true
    → m.domain ≡ domain
    → tc_blocked domain q p m
      ≡ not (
          if m.message_type == delay_req_type
          then (is_downstream q.state || is_upstream q.state) && is_upstream p.state
          else is_upstream q.state && is_downstream p.state)
unfolding tc_blocked
tc_blocked-ways domain q p m other real tree own =
    let no : (q.portnum == p.portnum) ≡ false = ground arith in
    let not_0 : (p.portnum == 0) ≡ false = ground arith in
    let same : (m.domain == domain) ≡ true = ground arith in
    rw (no, not_0, tree, same) (ways_lem q.state p.state (m.message_type == delay_req_type))
