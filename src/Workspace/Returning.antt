-- ===== src/Workspace/Returning.antt =====
-- What `BufferWorkspace::recycle` (src/pool.rs) leaves in the shared pool.
use mathlib.Core.List.{append-nil, append_assoc}
use gpu_info_rs.Prelude.{
  ℕ, zero, suc, u64_max, ◌+◌, ◌≤◌, ◌<◌, ◌≡◌, refl, ap, ◌∙◌, sym, ◌⊎◌, inl, inr, true, some, List,
  [], ◌∷◌, ◌++◌, arith, length, drop, Bool-cases, sum_by, sum_by-append, length-append,
}
use gpu_info_rs.Pool.{ResourcePool, put}
use gpu_info_rs.Pool.Invariant.{IsValid, Fair, total, put-IsValid}
use gpu_info_rs.Pool.Eviction.{quiet}
use gpu_info_rs.Pool.Return.{holding, holding_self, put_keeps}
use gpu_info_rs.Workspace.Buffers.{Wgpu, pooled}
use gpu_info_rs.Workspace.{BufferWorkspace, Gpu, Fate, put_all, recycle}

module _ {ℓ} {A : Type ℓ} where
  sum_by-drop-le : (f : A → ℕ) (n : ℕ) (xs : List A) → sum_by f (drop n xs) ≤ sum_by f xs
  sum_by-drop-le f zero xs = omega arith
  sum_by-drop-le f (suc n) [] = omega arith
  sum_by-drop-le f (suc n) (x ∷ xs) = omega (arith, sum_by-drop-le f n xs)

  length-drop-le : (n : ℕ) (xs : List A) → length (drop n xs) ≤ length xs
  length-drop-le zero xs = omega arith
  length-drop-le (suc n) [] = omega arith
  length-drop-le (suc n) (x ∷ xs) = omega (arith, length-drop-le n xs)

module _ (w : Wgpu) where
  put_all-IsValid :
      (fates : ℕ → Fate w) (held : List w.Buffer) (q : ResourcePool w.Buffer)
      → ((k : ℕ) → Fair (pooled w) (fates k).others)
      → IsValid (pooled w) q
      → (q' : ResourcePool w.Buffer) × (put_all w fates held q ≡ some q') × IsValid (pooled w) q'
  unfolding put_all
  put_all-IsValid fates [] q fair v = (q, refl, v)
  put_all-IsValid fates (b ∷ held) q fair v =
      let f = fates 0 in
      let (q', e, v', _) = put-IsValid (pooled w) f.reserved f.reserved' f.others b q (fair 0) v in
      let (q'', e', v'') = put_all-IsValid (λ k. fates (suc k)) held q' (λ k. fair (suc k)) v' in
      (q'', rw (e, put_all) e', v'')

  -- Whatever fair things other threads do, and whether memory is there or not, a job that ends does not
  -- panic and leaves the shared pool valid. Without the shared pool, it leaves all as it was.
  pub recycle-IsValid :
      (fates : ℕ → Fate w) (ws : BufferWorkspace w) (g : Gpu w)
      → ((k : ℕ) → Fair (pooled w) (fates k).others)
      → IsValid (pooled w) g.idle
      → (g' : Gpu w) × (recycle w fates ws g ≡ some g')
        × IsValid (pooled w) g'.idle
        × (g'.calls ≡ g.calls)
        × ((ws.pool ≡ true) ⊎ (g' ≡ g))
  unfolding recycle
  recycle-IsValid fates ws g fair v = elim (Bool-cases ws.pool) [
    | inr e ↦ (g, rw (e, recycle), v, refl, inr refl)
    | inl e ↦
        let (q, done, v') = put_all-IsValid fates ws.held g.idle fair v in
        (record g { idle = q }, rw (e, done, recycle), v', refl, inl e)
  ]

  -- Nobody comes in between, and memory is there.
  abbrev pub calm : ℕ → Fate w
  calm k = record { reserved = true; reserved' = true; others = quiet }

  put-calm :
      (b : w.Buffer) (xs : List w.Buffer) (q : ResourcePool w.Buffer)
      → q.budget ≤ u64_max
      → total (pooled w) xs + w.size b ≤ q.budget
      → length xs < q.max_entries
      → put (pooled w) true true quiet b (holding (pooled w) xs q)
        ≡ some (holding (pooled w) (xs ++ b ∷ []) q)
  put-calm b xs q small fits few =
      let valid : IsValid (pooled w) (holding (pooled w) xs q) = record {
        counted = refl;
        within = omega arith;
        budget_fits = small;
        entries = omega arith;
      } in
      let (n, kept, _, _, least) =
        put_keeps (pooled w) b (holding (pooled w) xs q) valid (omega arith) (omega arith) in
      elim least [
        | inl e ↦ kept ∙ ap (λ m. some (holding (pooled w) (drop m xs ++ b ∷ []) q)) e
        | inr (m, _, full) ↦
            absurd (ground (arith, sum_by-drop-le w.size m xs, length-drop-le m xs))
      ]

  put_all-calm :
      (held xs : List w.Buffer) (q : ResourcePool w.Buffer)
      → q.budget ≤ u64_max
      → total (pooled w) xs + total (pooled w) held ≤ q.budget
      → length xs + length held ≤ q.max_entries
      → put_all w calm held (holding (pooled w) xs q) ≡ some (holding (pooled w) (xs ++ held) q)
  unfolding put_all
  put_all-calm [] xs q small fits few =
      ap (λ ys. some (holding (pooled w) ys q)) (sym (append-nil xs))
  put_all-calm (b ∷ held) xs q small fits few =
      let kept = put-calm b xs q small (omega arith) (omega arith) in
      let sum = sum_by-append w.size xs (b ∷ []) in
      let count = length-append xs (b ∷ []) in
      rw (kept, put_all)
        (put_all-calm held (xs ++ b ∷ []) q small (omega (arith, sum)) (omega (arith, count))
          ∙ ap (λ ys. some (holding (pooled w) ys q)) (append_assoc xs (b ∷ []) held))

  -- With nobody in between, a job of the compute device that ends gives all of its buffers back, as
  -- the youngest of a valid shared pool with room for them, and nothing that is idle goes.
  pub recycle-holding :
      (ws : BufferWorkspace w) (g : Gpu w)
      → ws.pool ≡ true
      → IsValid (pooled w) g.idle
      → total (pooled w) g.idle.slots + total (pooled w) ws.held ≤ g.idle.budget
      → length g.idle.slots + length ws.held ≤ g.idle.max_entries
      → recycle w calm ws g
        ≡ some (record g { idle = holding (pooled w) (g.idle.slots ++ ws.held) g.idle })
  unfolding recycle
  recycle-holding ws g on v fits few =
      let all =
        ap (put_all w calm ws.held) (holding_self (pooled w) g.idle v)
        ∙ put_all-calm ws.held g.idle.slots g.idle v.budget_fits fits few in
      rw (on, all)
