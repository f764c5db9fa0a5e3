-- ===== src/Storage/Pager/Crash.antt =====
-- storage/pager.rs: the calls of a checkpoint that a crash cuts off. A crash keeps the
-- bytes of the last `sync_all` that no later write covers, and nothing else of the file is known;
-- the 4 KiB page of the header is written whole or not at all.
use veclite.Base.{
  ℕ, ◌+◌, ◌≤◌, ◌≡◌, sym, ap, ◌∙◌, subst, ◌⊎◌, inl, inr, min, List, [], ◌∷◌, ◌++◌, arith, Bytes,
  length, take, drop, length-append, length-take, take-take, take-append_le,
}
use veclite.Storage.File.{write_at, write_at_inside}
use veclite.Storage.Pager.{Write, append, rewrite_header, sync_all}
use veclite.Storage.Pager.Appends.{
  Appends, done, piece, barrier, overlaid, overlaid_twice, overlaid_nil, length-overlaid,
}

-- `CrashOf safe file ws g`: after a crash during the calls `ws` on `file`, whose first `safe` bytes
-- are on the disk, the file is `g`.
pub data CrashOf : ℕ → Bytes → List Write → Bytes → Type 0 where
  crash :
      {safe : ℕ} {file : Bytes} {ws : List Write} {g : Bytes}
      → safe ≤ length g
      → take safe g ≡ take safe file
      → CrashOf safe file ws g
  after_append :
      {safe : ℕ} {file : Bytes} {off : ℕ} {bytes : Bytes} {ws : List Write} {g : Bytes}
      → CrashOf (min safe off) (write_at off bytes file) ws g
      → CrashOf safe file (append off bytes ∷ ws) g
  after_header :
      {safe : ℕ} {file : Bytes} {page : Bytes} {ws : List Write} {g : Bytes}
      → CrashOf safe (write_at 0 page file) ws g
      → CrashOf safe file (rewrite_header page ∷ ws) g
  after_sync :
      {safe : ℕ} {file : Bytes} {ws : List Write} {g : Bytes}
      → CrashOf (length file) file ws g
      → CrashOf safe file (sync_all ∷ ws) g

-- The two files agree on their first `n` bytes, and `g` has them.
abbrev pub Keeps : ℕ → Bytes → Bytes → Type 0
Keeps n f g = n ≤ length g × (take n g ≡ take n f)

pub Keeps-le : (n m : ℕ) (f g : Bytes) → n ≤ m → Keeps m f g → Keeps n f g
Keeps-le n m f g h (l, e) =
    (omega (arith, h, l), sym (take-take n m g h) ∙ ap (take n) e ∙ take-take n m f h)

pub Keeps-trans : (n : ℕ) (f g k : Bytes) → Keeps n f g → Keeps n g k → Keeps n f k
Keeps-trans n f g k (_, e) (l, e') = (l, e' ∙ e)

pub overlaid-Keeps :
    (n cur : ℕ) (blob file : Bytes)
    → n ≤ cur
    → cur ≤ length file
    → Keeps n file (overlaid cur blob file)
overlaid-Keeps n cur blob file h l =
    let rest : Bytes = blob ++ drop (cur + length blob) file in
    (
      omega (arith, h, l, length-append (take cur file) rest, length-take cur file),
      take-append_le n (take cur file) rest (omega (arith, h, l, length-take cur file))
          ∙ take-take n cur file h,
    )

-- A crash among the appends leaves what stands before them; else they are all done.
pub crash-Appends :
    {n cur safe : ℕ} {ws ws' : List Write} {blob file g : Bytes}
    → Appends cur ws blob
    → n ≤ cur
    → cur ≤ length file
    → n ≤ safe
    → CrashOf safe file (ws ++ ws') g
    → Keeps n file g ⊎ ((safe' : ℕ) × (n ≤ safe') × CrashOf safe' (overlaid cur blob file) ws' g)
crash-Appends {n} {cur} {safe} {ws' = ws'} {file = file} {g = g} done h l k c =
    inr (safe, k, subst (λ t. CrashOf safe t ws' g) (overlaid_nil cur file) c)
crash-Appends {n} {safe = safe} {file = file} {g = g} (piece bytes e a) h l k (crash m e') =
    inl (Keeps-le n safe file g k (m, e'))
crash-Appends {n} {cur} {safe} {ws' = ws'} {file = file} {g = g}
      (piece {next = next} {ws = ws} {blob = blob} bytes e a) h l k (after_append c) =
    let mid : Bytes = overlaid cur bytes file in
    let m : next ≤ length mid = omega (arith, e, length-overlaid cur bytes file l) in
    let c' : CrashOf (min safe cur) mid (ws ++ ws') g =
      subst (λ t. CrashOf (min safe cur) t (ws ++ ws') g) (write_at_inside cur bytes file l) c in
    elim (crash-Appends {n = n} {cur = next} {safe = min safe cur} {ws = ws} {ws' = ws'}
      {blob = blob} {file = mid} {g = g} a (omega (arith, h, e)) m (omega (arith, h, k)) c') [
        | inl kept ↦ inl (Keeps-trans n file mid g (overlaid-Keeps n cur bytes file h l) kept)
        | inr done_all ↦ inr (
          done_all.0,
          done_all.1,
          subst (λ t. CrashOf done_all.0 t ws' g) (overlaid_twice cur next bytes blob file l e)
              done_all.2,
        )
      ]
crash-Appends {n} {safe = safe} {file = file} {g = g} (barrier a) h l k (crash m e') =
    inl (Keeps-le n safe file g k (m, e'))
crash-Appends {file = file} (barrier a) h l k (after_sync c) =
    crash-Appends a h l (omega (arith, h, l)) c

-- The last three calls of a checkpoint: the old bytes below the tail, or the new page and all bytes.
pub commit_cases :
    (n safe : ℕ) (file page g : Bytes)
    → n ≤ safe
    → n ≤ length file
    → CrashOf safe file (sync_all ∷ rewrite_header page ∷ sync_all ∷ []) g
    → Keeps n file g
      ⊎ (Keeps (length file) (write_at 0 page file) g
          ⊎ Keeps (length (write_at 0 page file)) (write_at 0 page file) g)
commit_cases n safe file page g h l (crash m e) = inl (Keeps-le n safe file g h (m, e))
commit_cases n safe file page g h l (after_sync (crash m e)) =
    inl (Keeps-le n (length file) file g l (m, e))
commit_cases n safe file page g h l (after_sync (after_header (crash m e))) = inr (inl (m, e))
commit_cases n safe file page g h l (after_sync (after_header (after_sync (crash m e)))) =
    inr (inr (m, e))
