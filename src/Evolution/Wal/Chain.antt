-- ===== src/Evolution/Wal/Chain.antt =====
-- The hash chain of the entries in memory.
use pads_v.Common.{ℕ, ◌≡◌, refl, String, List, [], ◌∷◌, ◌++◌}
use pads_v.Common.Int.{ℤ}
use pads_v.Evolution.Types.{Mode, Codec}
use pads_v.Evolution.Wal.{
  Entry, Wal, Digest, Disk, compute_hash, last_entry, last_hash, new_entry, append,
}

-- Each entry has the digest of its own fields, and names the hash of the entry before it; the
-- first one names `prev`.
abbrev pub IsChained : {F : Type 0} → Digest F → String → List (Entry F) → Type 0
IsChained digest prev [] = Unit
IsChained digest prev (e ∷ es) =
    (e.prev_hash ≡ prev) × (e.hash ≡ compute_hash digest e) × IsChained digest e.hash es

-- The hash that the next entry has to name.
abbrev hash_after : {F : Type 0} → String → List (Entry F) → String
hash_after prev [] = prev
hash_after prev (e ∷ es) = hash_after e.hash es

IsChained-snoc :
    {F : Type 0} (digest : Digest F) (prev : String) (es : List (Entry F)) (e : Entry F)
    → IsChained digest prev es
    → e.prev_hash ≡ hash_after prev es
    → e.hash ≡ compute_hash digest e
    → IsChained digest prev (es ++ e ∷ [])
IsChained-snoc digest prev [] e c p h = (p, h, tt)
IsChained-snoc digest prev (x ∷ es) e c p h = (c.0, c.1, IsChained-snoc digest x.hash es e c.2 p h)

last_hash-eq-hash_after :
    {F : Type 0} (e : Entry F) (es : List (Entry F)) → last_hash (e ∷ es) ≡ hash_after e.hash es
unfolding last_entry
last_hash-eq-hash_after e [] = refl
last_hash-eq-hash_after e (f ∷ es) = last_hash-eq-hash_after f es

last_hash-start : {F : Type 0} (es : List (Entry F)) → last_hash es ≡ hash_after "" es
last_hash-start [] = unfold last_entry in refl
last_hash-start (e ∷ es) = last_hash-eq-hash_after e es

-- An append keeps the chain of hashes of the entries in memory, whatever the disk answers: each
-- entry has the digest of its fields, and names the hash of the one before it.
pub append-IsChained :
    {F : Type 0} (codec : Codec (Entry F)) (digest : Digest F) (now : ℕ) (disk : Disk) (w : Wal F)
    (candidate current : ℤ) (weight : F) (mode : Mode)
    → IsChained digest "" w.entries
    → IsChained digest "" (append codec digest now disk w candidate current weight mode).0.entries
unfolding append
append-IsChained codec digest now disk w candidate current weight mode c =
    IsChained-snoc digest "" w.entries (new_entry codec digest now w candidate current weight mode)
      c (last_hash-start w.entries) refl
