-- ===== src/Device/Account.antt =====
-- Where the URBs that a device was sent are: answered, parked or paced (src/usbip_device.c).
use usbip_c.Base.{
  ℕ, zero, suc, ◌+◌, ◌%◌, ◌&&◌, ◌≡◌, refl, ap, subst, List, [], ◌∷◌, ◌++◌, map, arith,
}
use usbip_c.Base.{Bool, true, false, Option, none, some}
use usbip_c.Base.{◌==◌, if◌then◌else◌, if_both, get_elem?, set, All}
use usbip_c.Endpoint.State.{
  Ep, Pending, Ret, Op, write_op, stall_op, clear_op, stall_ret, write, serve_in, dispatch_out,
  stall, clear_halt,
}
use usbip_c.Endpoint.State as Queue
use usbip_c.Endpoint.Order.{answered-append, answered, waiting, IsSound, Answers, step-Answers}
use usbip_c.Build.State.{direction_of}
use usbip_c.Dfu.State.{Setup, req_type}
use usbip_c.Control.Describe.{Ident}
use usbip_c.Control.State.{
  get_status, clear_feature, set_feature, set_address, get_descriptor, get_configuration,
  set_configuration, get_interface, set_interface, other, Answer, pass, standard_of, Classes, Core,
  replace_by, halt_at, Standard, standard, set_halt, feature, handle_control,
}
use usbip_c.Control.State.{Effect, write_ep, stall_ep}
use usbip_c.Device.State.{perform, perform_all}

abbrev pub count : ℕ → List ℕ → ℕ
count s [] = 0
count s (x ∷ xs) = (if x == s then 1 else 0) + count s xs

pub count-append : (s : ℕ) (xs ys : List ℕ) → count s (xs ++ ys) ≡ count s xs + count s ys
count-append s [] ys = omega arith
count-append s (x ∷ xs) ys = omega (arith, count-append s xs ys)

-- the parked URBs of all endpoints
abbrev pub parked_all : List Ep → List ℕ
parked_all [] = []
parked_all (ep ∷ eps) = waiting ep.parked ++ parked_all eps

abbrev pub AllSound : Core → Type 0
AllSound core = All IsSound core.eps

pub held-IsSound :
    (eps : List Ep) (i : ℕ) (ep : Ep) → All IsSound eps → get_elem? eps i ≡ some ep → IsSound ep
held-IsSound [] i ep h e = absurd (cc e)
held-IsSound (x ∷ eps) zero ep (h, hs) e = subst IsSound {x = x} {y = ep} (cc e) h
held-IsSound (x ∷ eps) (suc i) ep (h, hs) e = held-IsSound eps i ep hs e

set-AllSound :
    (eps : List Ep) (i : ℕ) (ep : Ep) → All IsSound eps → IsSound ep → All IsSound (set eps i ep)
set-AllSound [] i ep h k = tt
set-AllSound (x ∷ eps) zero ep (h, hs) k = (k, hs)
set-AllSound (x ∷ eps) (suc i) ep (h, hs) k = (h, set-AllSound eps i ep hs k)

-- One endpoint changes.
parked_all-set :
    (s : ℕ) (eps : List Ep) (i : ℕ) (ep ep' : Ep)
    → get_elem? eps i ≡ some ep
    → count s (parked_all (set eps i ep')) + count s (waiting ep.parked)
      ≡ count s (parked_all eps) + count s (waiting ep'.parked)
parked_all-set s [] i ep ep' e = absurd (cc e)
parked_all-set s (x ∷ eps) zero ep ep' e =
    let same : x ≡ ep = cc e in
    omega (
      arith,
      ap (λ (y : Ep). count s (waiting y.parked)) same,
      count-append s (waiting ep'.parked) (parked_all eps),
      count-append s (waiting x.parked) (parked_all eps),
    )
parked_all-set s (x ∷ eps) (suc i) ep ep' e = omega (
  arith,
  parked_all-set s eps i ep ep' e,
  count-append s (waiting x.parked) (parked_all (set eps i ep')),
  count-append s (waiting x.parked) (parked_all eps),
)

-- What is answered and what is still parked was parked before, or is new; the endpoints stay sound.
abbrev pub Balanced : ℕ → Core → Core → List Ret → List ℕ → Type 0
Balanced s core core' rets new =
    (count s (answered rets) + count s (parked_all core'.eps)
      ≡ count s (parked_all core.eps) + count s new)
    × AllSound core'

pub change-Balanced :
    (s : ℕ) (core : Core) (i : ℕ) (ep : Ep) (r : Ep × List Ret) (new : List ℕ)
    → AllSound core
    → get_elem? core.eps i ≡ some ep
    → count s (answered r.1) + count s (waiting r.0.parked)
      ≡ count s (waiting ep.parked) + count s new
    → IsSound r.0
    → Balanced s core (record core { eps = set core.eps i r.0 }) r.1 new
change-Balanced s core i ep r new h e line sound =
    (omega (arith, line, parked_all-set s core.eps i ep r.0 e), set-AllSound core.eps i r.0 h sound)

pub replace-Balanced :
    (s : ℕ) (core : Core) (i : ℕ) (ep : Ep) (r : Ep × List Ret) (new : List ℕ)
    → AllSound core
    → get_elem? core.eps i ≡ some ep
    → Answers ep new r
    → Balanced s core (record core { eps = set core.eps i r.0 }) r.1 new
replace-Balanced s core i ep r new h e (line, sound) =
    change-Balanced s core i ep r new h e
      (omega (
        arith,
        ap (count s) line,
        count-append s (answered r.1) (waiting r.0.parked),
        count-append s (waiting ep.parked) new,
      ))
      sound

replace_by-Balanced :
    (s : ℕ) (core : Core) (i : ℕ) (f : Ep → Ep × List Ret) (o : Option Ep)
    → AllSound core
    → get_elem? core.eps i ≡ o
    → ((ep : Ep) → IsSound ep → Answers ep [] (f ep))
    → Balanced s core (replace_by core i f o).0 (replace_by core i f o).1 []
replace_by-Balanced s core i f none h e k = (omega arith, h)
replace_by-Balanced s core i f (some ep) h e k =
    replace-Balanced s core i ep (f ep) [] h e (k ep (held-IsSound core.eps i ep h e))

pub perform-Balanced :
    (s : ℕ) (core : Core) (e : Effect)
    → AllSound core
    → Balanced s core (perform core e).0 (perform core e).1 []
unfolding perform
perform-Balanced s core (write_ep i bytes) h =
    replace_by-Balanced s core i (λ (ep : Ep). write ep bytes) (get_elem? core.eps i) h refl
      (λ ep k. unfold Queue.step in step-Answers ep (write_op bytes) tt k)
perform-Balanced s core (stall_ep i) h =
    replace_by-Balanced s core i stall (get_elem? core.eps i) h refl
      (λ ep k. unfold Queue.step in step-Answers ep stall_op tt k)

-- two changes, one after the other
pub then-Balanced :
    (s : ℕ) (core core1 core2 : Core) (rets more : List Ret) (new : List ℕ)
    → Balanced s core core1 rets new
    → Balanced s core1 core2 more []
    → Balanced s core core2 (rets ++ more) new
then-Balanced s core core1 core2 rets more new (a, h) (b, k) = (
  omega (
    arith,
    a,
    b,
    ap (count s) (answered-append rets more),
    count-append s (answered rets) (answered more),
  ),
  k,
)

pub perform_all-Balanced :
    (s : ℕ) (es : List Effect) (core : Core)
    → AllSound core
    → Balanced s core (perform_all core es).0 (perform_all core es).1 []
unfolding perform_all
perform_all-Balanced s [] core h = (omega arith, h)
perform_all-Balanced s (e ∷ es) core h =
    let a = perform-Balanced s core e h in
    then-Balanced s core (perform core e).0 (perform_all (perform core e).0 es).0 (perform core e).1
      (perform_all (perform core e).0 es).1 [] a (perform_all-Balanced s es (perform core e).0 a.1)

-- ---- control requests ----

clear_halt-IsSound : (ep : Ep) → IsSound ep → IsSound (clear_halt ep)
clear_halt-IsSound ep h = unfold Queue.step in (step-Answers ep clear_op tt h).1

clear_halt-waiting : (ep : Ep) → waiting (clear_halt ep).parked ≡ waiting ep.parked
unfolding clear_halt
clear_halt-waiting ep = refl

clear_eps-Balanced :
    (s : ℕ) (eps : List Ep)
    → All IsSound eps
    → (count s (parked_all (map clear_halt eps)) ≡ count s (parked_all eps))
      × All IsSound (map clear_halt eps)
clear_eps-Balanced s [] h = (refl, tt)
clear_eps-Balanced s (ep ∷ eps) (h, hs) =
    let (a, b) = clear_eps-Balanced s eps hs in
    (
      omega (
        arith,
        a,
        ap (count s) (clear_halt-waiting ep),
        count-append s (waiting (clear_halt ep).parked) (parked_all (map clear_halt eps)),
        count-append s (waiting ep.parked) (parked_all eps),
      ),
      (clear_halt-IsSound ep h, b),
    )

halt_at-Balanced :
    (s : ℕ) (core : Core) (on : Bool) (o : Option ℕ)
    → AllSound core
    → Balanced s core (halt_at core on o).0 (halt_at core on o).1 []
halt_at-Balanced s core on none h = (omega arith, h)
halt_at-Balanced s core true (some i) h =
    replace_by-Balanced s core i stall (get_elem? core.eps i) h refl
      (λ ep k. unfold Queue.step in step-Answers ep stall_op tt k)
halt_at-Balanced s core false (some i) h =
    replace_by-Balanced s core i (λ (ep : Ep). (clear_halt ep, [])) (get_elem? core.eps i) h refl
      (λ ep k. unfold Queue.step in step-Answers ep clear_op tt k)

feature-Balanced :
    (s : ℕ) (core : Core) (setup : Setup) (on : Bool)
    → AllSound core
    → Balanced s core (feature core setup on).0 (feature core setup on).1 []
unfolding feature set_halt
feature-Balanced s core setup on h =
    if_both (λ (r : Core × List Ret). Balanced s core r.0 r.1 [])
      (setup.request_type % 32 == 2 && setup.value == 0)
      (halt_at core on (core.slot (setup.index % 256 % 16) (direction_of (setup.index % 256))))
      (core, []) (halt_at-Balanced s core on _ h) (omega arith, h)

module _ {World : Type 0} (classes : Classes World) (ident : Ident) where
  standard-Balanced :
      (s : ℕ) (r : Standard) (core : Core) (w : World) (setup : Setup)
      → AllSound core
      → Balanced s core
          (standard classes ident r core w setup).1
          (standard classes ident r core w setup).3
          []
  unfolding standard
  standard-Balanced s get_descriptor core w setup h = (omega arith, h)
  standard-Balanced s set_configuration core w setup h =
      let (a, b) = clear_eps-Balanced s core.eps h in (omega arith, b)
  standard-Balanced s get_configuration core w setup h = (omega arith, h)
  standard-Balanced s get_interface core w setup h = (omega arith, h)
  standard-Balanced s set_interface core w setup h = (omega arith, h)
  standard-Balanced s get_status core w setup h = (omega arith, h)
  standard-Balanced s clear_feature core w setup h = feature-Balanced s core setup false h
  standard-Balanced s set_feature core w setup h = feature-Balanced s core setup true h
  standard-Balanced s set_address core w setup h = (omega arith, h)
  standard-Balanced s other core w setup h = (omega arith, h)

  pub handle_control-Balanced :
      (s : ℕ) (core : Core) (w : World) (setup : Setup) (bytes : List ℕ)
      → AllSound core
      → Balanced s core
          (handle_control classes ident core w setup bytes).1
          (handle_control classes ident core w setup bytes).3
          []
  unfolding handle_control
  handle_control-Balanced s core w setup bytes h =
      if_both (λ (r : Answer × Core × World × List Ret). Balanced s core r.1 r.3 [])
        (req_type setup.request_type == 0)
        (standard classes ident (standard_of setup.request) core w setup) (pass, core, w, [])
        (standard-Balanced s (standard_of setup.request) core w setup h) (omega arith, h)
