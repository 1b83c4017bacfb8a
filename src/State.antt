-- ===== src/State.antt =====
-- The state that a reconcile decides from: pkg/reconciliation/state.go.
pub mod Build
use controlled_job.Base.{
  ℕ, suc, ◌+◌, ◌≤◌, ◌<◌, ◌≡◌, sym, ◌∙◌, String, Bool, Option, List, [], ◌∷◌, ◌==◌, Memᴰ, length,
  arith,
}
use controlled_job.Kube.{Time, Job}

-- A pointer to a job, with the job that it points to. The code compares such pointers.
pub record Handle : Type 0 where
  pub addr : ℕ
  pub job : Job

abbrev pub same_handle : Handle → Handle → Bool
same_handle a b = a.addr == b.addr

-- allJobs[i] = &childJobs.Items[i]: the pointers into the list, from address `n` on.
unfoldable pub pointers_from : ℕ → List Job → List Handle
pointers_from n [] = []
pointers_from n (j ∷ js) = record { addr = n; job = j } ∷ pointers_from (suc n) js

pub record State : Type 0 where
  pub is_suspended : Bool
  pub should_be_running : Option Bool
  pub start_of_current_run_period : Option Time
  pub last_stop_time : Option Time
  pub next_event_time : Option Time
  pub all_jobs : List Handle
  pub desired_hash : String
  pub auto_restart_is_enabled : Bool

-- The addresses of the listed jobs tell them apart and lie below their number, which is the address
-- that a new job gets.
pub record IsNumbered (hs : List Handle) : Type 0 where
  pub bounded : (h : Handle) → Memᴰ h hs → h.addr < length hs
  pub distinct : (h k : Handle) → Memᴰ h hs → Memᴰ k hs → h.addr ≡ k.addr → h ≡ k

pub pointers_above :
    (n : ℕ) (js : List Job) (h : Handle)
    → Memᴰ h (pointers_from n js)
    → (n ≤ h.addr) × (h.addr < n + length (pointers_from n js))
unfolding pointers_from
pointers_above n [] h m = elim m [ ]
pointers_above n (j ∷ js) h (Memᴰ.head e) = ground (arith, e)
pointers_above n (j ∷ js) h (Memᴰ.tail m) = omega (arith, pointers_above (suc n) js h m)

pointers_distinct :
    (n : ℕ) (js : List Job) (h k : Handle)
    → Memᴰ h (pointers_from n js)
    → Memᴰ k (pointers_from n js)
    → h.addr ≡ k.addr
    → h ≡ k
unfolding pointers_from
pointers_distinct n [] h k m l e = elim m [ ]
pointers_distinct n (j ∷ js) h k (Memᴰ.head p) (Memᴰ.head q) e = p ∙ sym q
pointers_distinct n (j ∷ js) h k (Memᴰ.head p) (Memᴰ.tail l) e =
    absurd (ground (arith, p, pointers_above (suc n) js k l))
pointers_distinct n (j ∷ js) h k (Memᴰ.tail m) (Memᴰ.head q) e =
    absurd (ground (arith, q, pointers_above (suc n) js h m))
pointers_distinct n (j ∷ js) h k (Memᴰ.tail m) (Memᴰ.tail l) e =
    pointers_distinct (suc n) js h k m l e

-- The pointers into a list of jobs are numbered: their addresses differ and lie below its length.
pub pointers-IsNumbered : (js : List Job) → IsNumbered (pointers_from 0 js)
pointers-IsNumbered js = record {
  bounded = λ h m. omega (arith, pointers_above 0 js h m);
  distinct = pointers_distinct 0 js;
}
