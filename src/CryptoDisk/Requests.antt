-- ===== src/CryptoDisk/Requests.antt =====
-- 10-36/SimpleCryptoDisk.cpp: many requests at once, which the provider completes in any order.
use mac_os_x_internal.Prelude.{
  ℕ, ◌+◌, ◌*◌, ◌≡◌, ◌≢◌, refl, arith, List, [], ◌∷◌, ◌++◌, none, some, ◌==◌, if◌then◌else◌, length,
  length-append,
}
use mac_os_x_internal.CryptoDisk.{
  Driver, Context, Buffer, read, write, read_write_completion, finish,
}

-- The driver, with the completions of all requests so far.
pub record Session : Type 0 where
  pub requested : List ℕ
  pub driver : Driver

-- A client reads or writes, or the provider completes one of the pending requests.
pub data Step (s : Session) (t : Session) : Type 0 where
  reads :
      (start buffer completion : ℕ)
      → t ≡ record {
        requested = completion ∷ s.requested;
        driver = (read start buffer completion s.driver).0;
      }
      → Step s t
  writes :
      (fresh : ℕ → ℕ) (start buffer completion : ℕ)
      → t ≡ record {
        requested = completion ∷ s.requested;
        driver = (write fresh start buffer completion s.driver).0;
      }
      → Step s t
  completes :
      (before after : List Context) (context : Context) (status count : ℕ)
      → s.driver.pending ≡ before ++ context ∷ after
      → t ≡ record s {
        driver =
            read_write_completion context status count
              (record s.driver { pending = before ++ after });
      }
      → Step s t

pub data Reach (s : Session) : Session → Type 0 where
  here : Reach s s
  next : {t u : Session} → Reach s t → Step t u → Reach s u

-- The pending requests that are writes.
abbrev pub writes_of : List Context → ℕ
writes_of [] = 0
writes_of (context ∷ contexts) =
    (elim context.memory [ none ↦ 0 | some m ↦ 1 ]) + writes_of contexts

-- How often a completion stands in a list of requests, of contexts, and of those that have run.
abbrev pub requests_of : ℕ → List ℕ → ℕ
requests_of c [] = 0
requests_of c (r ∷ rs) = (if r == c then 1 else 0) + requests_of c rs

abbrev pub pending_of : ℕ → List Context → ℕ
pending_of c [] = 0
pending_of c (context ∷ contexts) =
    (if context.completion == c then 1 else 0) + pending_of c contexts

abbrev pub runs_of : ℕ → List (ℕ × ℕ × ℕ) → ℕ
runs_of c [] = 0
runs_of c ((r, status, count) ∷ rs) = (if r == c then 1 else 0) + runs_of c rs

writes_of-append : (xs ys : List Context) → writes_of (xs ++ ys) ≡ writes_of xs + writes_of ys
writes_of-append [] ys = omega arith
writes_of-append (x ∷ xs) ys = omega (arith, writes_of-append xs ys)

pending_of-append :
    (c : ℕ) (xs ys : List Context) → pending_of c (xs ++ ys) ≡ pending_of c xs + pending_of c ys
pending_of-append c [] ys = omega arith
pending_of-append c (x ∷ xs) ys = omega (arith, pending_of-append c xs ys)

-- Each pending request holds its context, and a write the memory and two descriptors besides; and each completion has run once for
-- each of its requests that is not pending.
pub record IsBalanced (s : Session) : Type 0 where
  pub blocks : s.driver.blocks ≡ length s.driver.pending + writes_of s.driver.pending
  pub descriptors : s.driver.descriptors ≡ 2 * writes_of s.driver.pending
  pub once :
      (c : ℕ)
      → c ≢ 0
      → runs_of c s.driver.finished + pending_of c s.driver.pending ≡ requests_of c s.requested

read-IsBalanced :
    (s : Session) (start buffer completion : ℕ)
    → IsBalanced s
    → IsBalanced (record {
      requested = completion ∷ s.requested;
      driver = (read start buffer completion s.driver).0;
    })
unfolding read
read-IsBalanced s start buffer completion v = record {
  blocks = ground (arith, v.blocks);
  descriptors = ground (arith, v.descriptors);
  once = λ c named. ground (arith, v.once c);
}

write-IsBalanced :
    (s : Session) (fresh : ℕ → ℕ) (start buffer completion : ℕ)
    → IsBalanced s
    → IsBalanced (record {
      requested = completion ∷ s.requested;
      driver = (write fresh start buffer completion s.driver).0;
    })
unfolding write
write-IsBalanced s fresh start buffer completion v = record {
  blocks = ground (arith, v.blocks);
  descriptors = ground (arith, v.descriptors);
  once = λ c named. ground (arith, v.once c);
}

module _ (s : Session) (before after : List Context) (context : Context) (status count : ℕ)
    (at : s.driver.pending ≡ before ++ context ∷ after) (v : IsBalanced s) where
  completed : Session
  completed = record s {
    driver =
        read_write_completion context status count (record s.driver { pending = before ++ after });
  }

  completion-IsBalanced : IsBalanced completed
  unfolding completed read_write_completion finish
  completion-IsBalanced = record {
    blocks = ground (
      arith,
      v.blocks,
      writes_of-append before (context ∷ after),
      writes_of-append before after,
      length-append before (context ∷ after),
      length-append before after,
    );
    descriptors = ground (
      arith,
      v.descriptors,
      writes_of-append before (context ∷ after),
      writes_of-append before after,
    );
    once = λ c named. ground (
      arith,
      v.once c named,
      pending_of-append c before (context ∷ after),
      pending_of-append c before after,
    );
  }

Step-IsBalanced : {s t : Session} → Step s t → IsBalanced s → IsBalanced t
unfolding completed
Step-IsBalanced {s} (reads start buffer completion e) v =
    rw e (read-IsBalanced s start buffer completion v)
Step-IsBalanced {s} (writes fresh start buffer completion e) v =
    rw e (write-IsBalanced s fresh start buffer completion v)
Step-IsBalanced {s} (completes before after context status count at e) v =
    rw e (completion-IsBalanced s before after context status count at v)

-- The driver before its first request; its clients have buffers.
abbrev pub idle : (ℕ → Buffer) → Session
idle buffers = record {
  requested = [];
  driver = record { buffers = buffers; pending = []; blocks = 0; descriptors = 0; finished = [] };
}

idle-IsBalanced : (buffers : ℕ → Buffer) → IsBalanced (idle buffers)
idle-IsBalanced buffers = record { blocks = refl; descriptors = refl; once = λ c named. refl }

-- After any requests from an idle driver on, completed in any order: each pending request holds its context, and a pending write its
-- memory and two descriptors besides, and nothing else is held; and each completion but the absent one, 0, has run once for each of its
-- requests that is no longer pending.
pub Reach-IsBalanced : (buffers : ℕ → Buffer) {t : Session} → Reach (idle buffers) t → IsBalanced t
Reach-IsBalanced buffers here = idle-IsBalanced buffers
Reach-IsBalanced buffers (next r step) = Step-IsBalanced step (Reach-IsBalanced buffers r)
