-- ===== src/Shmring/Steps.antt =====
-- x/shmring/shmring.go under two goroutines: the loads, the store and the notification of
-- `WriteCommit` and `ReadRelease` are steps of their own, taken in any order.
use devicecode_go.Base.{ℕ, ◌≤◌, ◌≡◌, ◌≢◌, true, false}
use devicecode_go.Shmring.{
  Ring, Loaded, load, available, space, commit_store, commit_notify, release_store, release_notify,
}

-- Where a goroutine stands in its call with count n.
pub data Phase : Type 0 where
  idle : Phase
  loaded : ℕ → Loaded → Phase
  stored : ℕ → Loaded → Phase

pub record System : Type 0 where
  pub ring : Ring
  pub producer : Phase
  pub consumer : Phase

-- A caller commits at most the space, and releases at most the bytes, of its last acquire. The
-- other side only ever adds to these, so they are read off the ring at the load.
pub data Step : System → System → Type 0 where
  commit_loads :
      (r : Ring) (c : Phase) (n : ℕ)
      → n ≢ 0
      → n ≤ space r
      → Step
          (record { ring = r; producer = idle; consumer = c })
          (record { ring = r; producer = loaded n (load r); consumer = c })
  commit_stores :
      (r : Ring) (c : Phase) (n : ℕ) (s : Loaded)
      → Step
          (record { ring = r; producer = loaded n s; consumer = c })
          (record { ring = commit_store n s r; producer = stored n s; consumer = c })
  commit_notifies :
      (r : Ring) (c : Phase) (n : ℕ) (s : Loaded)
      → Step
          (record { ring = r; producer = stored n s; consumer = c })
          (record { ring = commit_notify s r; producer = idle; consumer = c })
  release_loads :
      (r : Ring) (p : Phase) (n : ℕ)
      → n ≢ 0
      → n ≤ available r
      → Step
          (record { ring = r; producer = p; consumer = idle })
          (record { ring = r; producer = p; consumer = loaded n (load r) })
  release_stores :
      (r : Ring) (p : Phase) (n : ℕ) (s : Loaded)
      → Step
          (record { ring = r; producer = p; consumer = loaded n s })
          (record { ring = release_store n s r; producer = p; consumer = stored n s })
  release_notifies :
      (r : Ring) (p : Phase) (n : ℕ) (s : Loaded)
      → Step
          (record { ring = r; producer = p; consumer = stored n s })
          (record { ring = release_notify s r; producer = p; consumer = idle })
  readable_received :
      (r : Ring) (p c : Phase)
      → r.readable ≡ true
      → Step
          (record { ring = r; producer = p; consumer = c })
          (record { ring = record r { readable = false }; producer = p; consumer = c })
  writable_received :
      (r : Ring) (p c : Phase)
      → r.writable ≡ true
      → Step
          (record { ring = r; producer = p; consumer = c })
          (record { ring = record r { writable = false }; producer = p; consumer = c })

pub data Reach (s : System) : System → Type 0 where
  here : Reach s s
  next : {t u : System} → Reach s t → Step t u → Reach s u

abbrev pub at_rest : Ring → System
at_rest r = record { ring = r; producer = idle; consumer = idle }
