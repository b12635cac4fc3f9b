-- ===== src/Reader/Tree/Total.antt =====
-- walkBST and buildStorage end: each call marks an entry, and no entry is marked twice.
use go_cfb.Base.{
  ℕ, zero, suc, ◌+◌, ◌≤◌, ◌<◌, ◌≡◌, refl, ap, ◌∙◌, true, false, List, [], ◌∷◌, some, ◌==◌, leb, ltb,
  arith, length, get_elem?, get_or, set, replicate, Bool-cases, Option-cases, ◌⊎◌, ◌^◌, inl, inr,
  length-replicate, ==_iff, length-set, some-injective, lt_of_get_elem?, ◌*◌, ◌/◌,
}
use mathlib.Core.Path.{subst}
use go_cfb.Base.Total.{Ends, value, error, Any, Ends->>=, Ends-if}
use go_cfb.Format.{
  no_stream, object_unallocated, object_storage, object_stream, object_root, mini_sector_size,
  mini_stream_cutoff, end_of_chain,
}
use go_cfb.Reader.Build.{sectors_for, build_stream}
use go_cfb.Reader.Chain.Walk.{Ends-walk_chain}
use go_cfb.Reader.Directory.Total.{IsTyped, AllTyped, IsDirectory}
use go_cfb.Reader.Entry.{RawEntry, Object, a_storage, a_stream, StorageInfo, StreamInfo}
use go_cfb.Reader.Errors.{Parsed}
use go_cfb.Reader.Runs.{extend_run, Collected, mini_offset, mini_loop, resolve_mini_runs}
use go_cfb.Reader.Tree.{
  Parser, Marks, Walked, build_storage, storage_entry, stream_entry, visit_entry, walk_entry,
  walk_bst, root_storage, build_root,
}

-- The number of entries without a mark.
unfoldable pub unmarked : Marks → ℕ
unmarked [] = 0
unmarked (true ∷ ms) = unmarked ms
unmarked (false ∷ ms) = suc (unmarked ms)

pub unmarked-set :
    (ms : Marks) (i : ℕ)
    → i < length ms
    → get_or ms i false ≡ false
    → suc (unmarked (set ms i true)) ≡ unmarked ms
unfolding unmarked
unmarked-set [] i below free = absurd (omega arith)
unmarked-set (true ∷ ms) zero below free = cc
unmarked-set (false ∷ ms) zero below free = refl
unmarked-set (true ∷ ms) (suc i) below free = unmarked-set ms i (omega arith) free
unmarked-set (false ∷ ms) (suc i) below free = omega (arith, unmarked-set ms i (omega arith) free)

pub unmarked-set_le : (ms : Marks) (i : ℕ) → unmarked (set ms i true) ≤ unmarked ms
unfolding unmarked
unmarked-set_le [] i = omega arith
unmarked-set_le (true ∷ ms) zero = omega arith
unmarked-set_le (false ∷ ms) zero = omega arith
unmarked-set_le (true ∷ ms) (suc i) = unmarked-set_le ms i
unmarked-set_le (false ∷ ms) (suc i) = omega (arith, unmarked-set_le ms i)

unmarked-replicate : (n : ℕ) → unmarked (replicate n false) ≡ n
unfolding unmarked
unmarked-replicate zero = refl
unmarked-replicate (suc n) = omega (arith, unmarked-replicate n)

Ends-mini_offset :
    (size : ℕ) (mini_stream : List ℕ) (sec : ℕ) → Ends Any (mini_offset size mini_stream sec)
unfolding mini_offset
Ends-mini_offset size mini_stream sec =
    Ends-if (leb (length mini_stream) (sec * mini_sector_size / size)) error (value tt)

Ends-mini_loop :
    (size : ℕ) (mini_stream : List ℕ) (c : Collected) (chain : List ℕ)
    → Ends Any (mini_loop size mini_stream c chain)
unfolding mini_loop
Ends-mini_loop size mini_stream c [] = value tt
Ends-mini_loop size mini_stream c (m ∷ rest) =
    Ends->>= (Ends-mini_offset size mini_stream m)
      (λ off _. Ends-mini_loop size mini_stream (extend_run mini_sector_size off c) rest)

Ends-resolve_mini_runs :
    (size : ℕ) (mini_stream chain : List ℕ) (n : ℕ)
    → Ends Any (resolve_mini_runs size mini_stream chain n)
unfolding resolve_mini_runs
Ends-resolve_mini_runs size mini_stream [] n = value tt
Ends-resolve_mini_runs size mini_stream (m ∷ rest) n =
    Ends->>= (Ends-mini_offset size mini_stream m)
      (λ off _. Ends->>= (Ends-mini_loop size mini_stream _ rest) (λ c _. value tt))

-- The size of a sector, and the chain of a stream that a FAT can hold.
abbrev pub SectorSize : ℕ → Type 0
SectorSize w = (w ≡ 512) ⊎ (w ≡ 4096)

sectors_small : (w size : ℕ) → SectorSize w → size ≤ 2 ^ 54 → sectors_for w size ≤ 2 ^ 46
sectors_small w size (inl e) small = rw e (omega (arith, small))
sectors_small w size (inr e) small = rw e (omega (arith, small))

Ends-build_stream :
    (size : ℕ) (fat mini_fat mini_stream : List ℕ) (de : RawEntry)
    → SectorSize size
    → de.stream_size ≤ 2 ^ 54
    → Ends Any (build_stream size fat mini_fat mini_stream de)
unfolding build_stream
Ends-build_stream size fat mini_fat mini_stream de sized small =
    Ends-if (de.stream_size == 0) (value tt) (
      Ends-if (de.start_sector == end_of_chain) error
        (elim (Bool-cases (ltb de.stream_size mini_stream_cutoff)) [
          | inl mini ↦ rw mini (
              Ends->>= (Ends-walk_chain mini_fat de.start_sector _ (few mini))
                (λ chain _. Ends-resolve_mini_runs size mini_stream chain de.stream_size))
          | inr large ↦ rw large (
              Ends->>=
                (Ends-walk_chain fat de.start_sector _
                  (sectors_small size de.stream_size sized small))
                (λ chain _. value tt))
        ]))
  where
    few :
        ltb de.stream_size mini_stream_cutoff ≡ true
        → sectors_for mini_sector_size de.stream_size ≤ 2 ^ 46
    few mini = let below : de.stream_size < 4096 = ground (arith, mini) in omega (arith, below)

-- After a walk there are as many marks, and no more entries without one.
abbrev pub Keeps : {A : Type 0} → Marks → Marks × A → Type 0
Keeps ms w = (length (w.0) ≡ length ms) × (unmarked (w.0) ≤ unmarked ms)

Ends-stream_entry :
    (p : Parser) (ms : Marks) (de : RawEntry) (info : StreamInfo) (o : Object)
    → o ≡ a_stream info
    → SectorSize p.sec_size
    → de.stream_size ≤ 2 ^ 54
    → Ends (Keeps ms) (stream_entry p ms de o)
unfolding stream_entry
Ends-stream_entry p ms de info o e sized small = rw e (
    Ends->>= (Ends-build_stream p.sec_size p.fat p.mini_fat p.mini_stream de sized small)
      (λ runs _. value (refl, omega arith)))

module _ (walk : Marks → ℕ → Parsed Walked) where
  abbrev pub Walks : Marks → Type 0
  Walks ms =
      (ns : Marks) (id : ℕ)
      → length ns ≡ length ms
      → unmarked ns ≤ unmarked ms
      → Ends (Keeps ns) (walk ns id)

  Ends-build_storage :
      (ms : Marks) (de : RawEntry) → Walks ms → Ends (Keeps ms) (build_storage walk ms de)
  unfolding build_storage
  Ends-build_storage ms de walks =
      Ends-if (de.child_id == no_stream) (value (refl, omega arith))
        (Ends->>= (walks ms de.child_id refl (omega arith)) (λ w k. value k))

  Ends-storage_entry :
      (ms : Marks) (de : RawEntry) (info : StorageInfo) (o : Object)
      → o ≡ a_storage info
      → Walks ms
      → Ends (Keeps ms) (storage_entry walk ms de o)
  unfolding storage_entry
  Ends-storage_entry ms de info o e walks =
      rw e (Ends->>= (Ends-build_storage ms de walks) (λ w k. value k))

  Ends-visit_entry :
      (p : Parser) (ms : Marks) (de : RawEntry)
      → SectorSize p.sec_size
      → IsTyped de
      → Walks ms
      → Ends (Keeps ms) (visit_entry p walk ms de)
  unfolding visit_entry
  Ends-visit_entry p ms de sized typed walks =
      elim (Bool-cases (de.object_type == object_storage)) [
        | inl e ↦
            let (info, is) =
              typed.has.storages (inl ((==_iff de.object_type object_storage).0 e)) in
            rw e (Ends-storage_entry ms de info de.object is walks)
        | inr not_storage ↦ elim (Bool-cases (de.object_type == object_stream)) [
          | inl e ↦
              let (info, is) = typed.has.streams ((==_iff de.object_type object_stream).0 e) in
              rw (not_storage, e)
                (Ends-stream_entry p ms de info de.object is sized
                  (typed.held ((==_iff de.object_type object_stream).0 e)))
          | inr not_stream ↦
              rw (not_storage, not_stream)
                (Ends-if (de.object_type == object_unallocated) (value (refl, omega arith))
                  (Ends-if (de.object_type == object_root) error error))
        ]
      ]

  Ends-walk_entry :
      (p : Parser) (ms : Marks) (id : ℕ) (de : RawEntry)
      → SectorSize p.sec_size
      → IsTyped de
      → id < length ms
      → ((ns : Marks) → length ns ≡ length ms → unmarked ns < unmarked ms → Walks ns)
      → Ends (Keeps ms) (walk_entry p walk ms id de)
  unfolding walk_entry
  Ends-walk_entry p ms id de sized typed below walks = elim (Bool-cases (get_or ms id false)) [
    | inl again ↦ rw again error
    | inr first ↦
        let size = length-set ms id true in
        let less = unmarked-set ms id below first in
        let w = walks (set ms id true) size (omega (arith, less)) in
        rw first (
          Ends->>= (w (set ms id true) de.left_sib refl (omega arith)) (λ left k.
            Ends->>=
              (Ends-visit_entry p left.0 de sized typed
                (λ ns i l u. w ns i (l ∙ k.0) (omega (arith, u, k.1))))
              (λ own k2.
                Ends->>= (w own.0 de.right_sib (k2.0 ∙ k.0) (omega (arith, k2.1, k.1))) (λ right k3.
                  value (k3.0 ∙ k2.0 ∙ k.0 ∙ size, omega (arith, k3.1, k2.1, k.1, less))))))
  ]

AllTyped-at :
    (raw : List RawEntry) (i : ℕ) {e : RawEntry}
    → AllTyped raw
    → get_elem? raw i ≡ some e
    → IsTyped e
AllTyped-at [] i all h = cc
AllTyped-at (x ∷ raw) zero {e} (p, all) h = subst IsTyped (some-injective h) p
AllTyped-at (x ∷ raw) (suc i) (p, all) h = AllTyped-at raw i all h

module _ (p : Parser) (sized : SectorSize p.sec_size) (typed : AllTyped p.raw) where
  Ends-walk_bst :
      (fuel : ℕ) (ms : Marks) (id : ℕ)
      → length ms ≡ length p.raw
      → unmarked ms < fuel
      → Ends (Keeps ms) (walk_bst p fuel ms id)
  unfolding walk_bst
  Ends-walk_bst zero ms id size enough = absurd (omega arith)
  Ends-walk_bst (suc fuel) ms id size enough =
      Ends-if (id == no_stream) (value (refl, omega arith))
        (elim (Option-cases (get_elem? p.raw id)) [
          | inl none_there ↦ rw none_there error
          | inr (de, there) ↦ rw there (
              Ends-walk_entry (walk_bst p fuel) p ms id de sized (AllTyped-at p.raw id typed there)
                (omega (arith, size, lt_of_get_elem? p.raw id there))
                (λ ns same less. λ os i l u.
                  Ends-walk_bst fuel os i (l ∙ same ∙ size) (omega (arith, u, less, enough))))
        ])

Ends-root_storage :
    (p : Parser) (de : RawEntry) (info : StorageInfo) (o : Object)
    → o ≡ a_storage info
    → SectorSize p.sec_size
    → AllTyped p.raw
    → Ends Any (root_storage p de o)
unfolding root_storage
Ends-root_storage p de info o e sized typed =
    let n = length p.raw in
    let marks = replicate n false in
    let size : length marks ≡ n = length-replicate n false in
    let free : unmarked marks ≡ n = unmarked-replicate n in
    let walks : Walks (walk_bst p (n + 1)) marks =
      λ ns id l u. Ends-walk_bst p sized typed (n + 1) ns id (l ∙ size) (omega (arith, u, free)) in
    rw e (Ends->>= (Ends-build_storage (walk_bst p (n + 1)) marks de walks) (λ w k. value tt))

-- buildStorage ends for the root of a directory.
pub Ends-build_root :
    (p : Parser) → SectorSize p.sec_size → IsDirectory p.raw → Ends Any (build_root p)
unfolding build_root
Ends-build_root p sized d =
    let there : get_elem? p.raw 0 ≡ some d.root = ap (λ es. get_elem? es 0) d.first in
    let (info, is) = (AllTyped-at p.raw 0 d.typed there).has.storages (inr d.rooted) in
    rw (there, build_root) (Ends-root_storage p d.root info d.root.object is sized d.typed)
