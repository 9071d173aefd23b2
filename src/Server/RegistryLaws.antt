-- ===== src/Server/RegistryLaws.antt =====
-- What plugging and unplugging keep of a listener (src/usbip.c).
use usbip_c.Base.{
  ℕ, ◌+◌, ◌-◌, ◌%◌, ◌^◌, ◌≤◌, ◌<◌, ◌≡◌, ◌≢◌, refl, sym, ap, ◌∙◌, List, [], ◌∷◌, ◌++◌,
}
use usbip_c.Base.{
  Bool, true, false, none, some, arith, ◌==◌, ==_refl, if◌then◌else◌, Bool-cases, inl, inr, ◌⊎◌,
}
use usbip_c.Base.{length, All, length-append, leb}
use usbip_c.Server.Registry.{Slot, Listener, max_devices, first_devnum, success}
use usbip_c.Server.Registry.{
  auto_busid, assign_busid, ensure_running, join, serve_start, remove, serve_stop,
}

-- wire addresses below a bound, and no two the same
abbrev pub Fresh : ℕ → List Slot → Type 0
Fresh bound [] = Unit {0}
Fresh bound (s ∷ ss) = (s.devnum < bound) × All (λ t. t.devnum ≢ s.devnum) ss × Fresh bound ss

pub record IsListener (l : Listener) : Type 0 where
  pub capacity : length l.devs ≤ max_devices
  pub stopped : l.running ≡ false → length l.devs ≡ 0
  pub addresses : Fresh l.next_devnum l.devs

All-append {ℓ κ} :
    {A : Type ℓ} (P : A → Type κ) (xs ys : List A) → All P xs → All P ys → All P (xs ++ ys)
All-append P [] ys h k = k
All-append P (x ∷ xs) ys (h, hs) k = (h, All-append P xs ys hs k)

Fresh-join :
    (bound : ℕ) (ss : List Slot) (s : Slot)
    → Fresh bound ss
    → s.devnum ≡ bound
    → Fresh (bound + 1) (ss ++ (s ∷ []))
Fresh-join bound [] s h e = (omega arith, tt, tt)
Fresh-join bound (t ∷ ss) s (lt, ne, h) e = (
  omega arith,
  All-append (λ u. u.devnum ≢ t.devnum) ss (s ∷ []) ne (omega arith, tt),
  Fresh-join bound ss s h e,
)

All-remove : (P : Slot → Type 0) (dev : ℕ) (ss : List Slot) → All P ss → All P (remove dev ss)
unfolding remove
All-remove P dev [] h = h
All-remove P dev (s ∷ ss) (h, hs) = elim (Bool-cases (s.dev == dev)) [
  | inl e ↦ rw e hs
  | inr e ↦ rw e (h, All-remove P dev ss hs)
]

Fresh-remove : (bound dev : ℕ) (ss : List Slot) → Fresh bound ss → Fresh bound (remove dev ss)
unfolding remove
Fresh-remove bound dev [] h = h
Fresh-remove bound dev (s ∷ ss) (lt, ne, h) = elim (Bool-cases (s.dev == dev)) [
  | inl e ↦ rw e h
  | inr e ↦ rw e (lt, All-remove (λ u. u.devnum ≢ s.devnum) dev ss ne, Fresh-remove bound dev ss h)
]

length-remove : (dev : ℕ) (ss : List Slot) → length (remove dev ss) ≤ length ss
unfolding remove
length-remove dev [] = omega arith
length-remove dev (s ∷ ss) = ground (arith, length-remove dev ss)

-- an empty listener has nothing to be fresh for
Fresh-empty : (bound : ℕ) (ss : List Slot) → length ss ≡ 0 → Fresh bound ss
Fresh-empty bound [] h = tt
Fresh-empty bound (s ∷ ss) h = absurd (omega arith)

-- Joining a listener that runs and has room keeps its invariant.
join-IsListener :
    (l : Listener) (dev : ℕ) (busid : List ℕ)
    → IsListener l
    → l.running ≡ true
    → length l.devs < max_devices
    → l.next_devnum < 2 ^ 32 - 1
    → IsListener (join l dev busid)
unfolding join
join-IsListener l dev busid v r room small = record {
  capacity = omega (arith, length-append l.devs (new ∷ []));
  stopped = λ e. absurd (cc);
  addresses = rw next (Fresh-join l.next_devnum l.devs new v.addresses refl);
}
  where
    new : Slot
    new = record { dev = dev; busid = assign_busid busid (length l.devs); devnum = l.next_devnum }

    next : (l.next_devnum + 1) % 2 ^ 32 ≡ l.next_devnum + 1
    next = omega arith

abbrev restarted : Listener → Listener
restarted l = record l { running = true; next_devnum = first_devnum }

-- The listener that a device joins: the running one, or the idle one started anew.
ensure_cases :
    (started : Bool) (l : Listener)
    → (ensure_running started l ≡ none)
      ⊎ ((l.running ≡ true) × (ensure_running started l ≡ some l))
      ⊎ ((l.running ≡ false) × (ensure_running started l ≡ some (restarted l)))
unfolding ensure_running
ensure_cases true l = elim (Bool-cases l.running) [
  | inl r ↦ inr (inl (r, ap (λ (b : Bool). if b then some l else some (restarted l)) r))
  | inr r ↦ inr (inr (r, ap (λ (b : Bool). if b then some l else some (restarted l)) r))
]
ensure_cases false l = elim (Bool-cases l.running) [
  | inl r ↦ inr (inl (r, ap (λ (b : Bool). if b then some l else none) r))
  | inr r ↦ inl (ap (λ (b : Bool). if b then some l else none) r)
]

-- Plugging keeps the listener's invariant, whatever its answer: at most 16 devices, none while it
-- is stopped, wire addresses below the next one and all different, as long as the address counter
-- does not wrap.
pub serve_start-IsListener :
    (started : Bool) (l : Listener) (dev : ℕ) (busid : List ℕ)
    → IsListener l
    → l.next_devnum < 2 ^ 32 - 1
    → IsListener (serve_start started l dev busid).1
unfolding serve_start
serve_start-IsListener started l dev busid v small =
    elim (Bool-cases (leb max_devices (length l.devs))) [
      | inl full ↦ rw full v
      | inr room ↦ rw room (elim (ensure_cases started l) [
        | inl e ↦ rw (e, serve_start) v
        | inr (inl (r, e)) ↦ rw e (join-IsListener l dev busid v r (ground arith) small)
        | inr (inr (r, e)) ↦
            rw e
              (join-IsListener (restarted l) dev busid (anew r) refl (ground arith) (omega arith))
      ])
    ]
  where
    anew : l.running ≡ false → IsListener (restarted l)
    anew r = record {
      capacity = v.capacity;
      stopped = λ e. absurd (cc);
      addresses = Fresh-empty first_devnum l.devs (v.stopped r);
    }

-- Unplugging keeps the listener's invariant.
pub serve_stop-IsListener :
    (attached : Bool) (l : Listener) (dev : ℕ)
    → IsListener l
    → IsListener (serve_stop attached l dev)
unfolding serve_stop
serve_stop-IsListener false l dev v = v
serve_stop-IsListener true l dev v = record {
  capacity = omega (arith, v.capacity, length-remove dev l.devs);
  stopped = λ e. ground (arith, v.stopped, length-remove dev l.devs);
  addresses = Fresh-remove l.next_devnum dev l.devs v.addresses;
}

remove_first : (s : Slot) (ss : List Slot) → remove s.dev (s ∷ ss) ≡ ss
unfolding remove
remove_first s ss = rw (==_refl s.dev)

not_empty : (mid : List Slot) (last : Slot) → (length (mid ++ (last ∷ [])) == 0) ≡ false
not_empty mid last = ground (arith, length-append mid (last ∷ []))

le_room : (n : ℕ) → n < 16 → leb 16 n ≡ false
le_room n h = ground arith

-- A busid can be given out twice. On a listener whose last device got its busid in plug order,
-- unplugging the first device and plugging one that chose no busid gives the newcomer the busid
-- that the last device still has, behind it in the list that an import searches.
pub busid_reused :
    (l : Listener) (first last : Slot) (mid : List Slot) (c : ℕ)
    → l.running ≡ true
    → l.devs ≡ first ∷ (mid ++ (last ∷ []))
    → last.busid ≡ auto_busid (length l.devs)
    → length l.devs ≤ max_devices
    → let (answer, after) = serve_start true (serve_stop true l first.dev) c [] in
      (answer ≡ success)
      × (after.devs
          ≡ (mid ++ (last ∷ []))
            ++ (record { dev = c; busid = last.busid; devnum = l.next_devnum } ∷ []))
busid_reused l first last mid c r e b room = rw answer (refl, devs)
  where
    rest : List Slot
    rest = mid ++ (last ∷ [])

    left : Listener
    left = record l { devs = rest; running = true }

    count : length rest + 1 ≡ length l.devs
    count = omega (arith, ap length e)

    stop : serve_stop true l first.dev ≡ left
    stop = unfold serve_stop in rw (e, remove_first first rest, not_empty mid last, r)

    joined : Listener
    joined = join left c []

    answer : serve_start true (serve_stop true l first.dev) c [] ≡ (success, joined)
    answer = rw stop (
        unfold serve_start ensure_running in
        rw (le_room (length rest) (omega (arith, count, room))))

    devs :
        joined.devs ≡ rest ++ (record { dev = c; busid = last.busid; devnum = l.next_devnum } ∷ [])
    devs =
        unfold join assign_busid in
        ap (λ (n : List ℕ). rest ++ (record { dev = c; busid = n; devnum = l.next_devnum } ∷ []))
          (ap auto_busid count ∙ sym b)
