-- ===== src/TxLog/InPlace/Writes.antt =====
-- tx_log.c: `tx_slot_meta_upd_process`, which writes the collected versions and lengths to the headers.
use mathlib.Core.Path.{subst}
use pmbackend.Base.{
  ℕ, ◌+◌, ◌≤◌, ◌<◌, ◌≡◌, refl, ◌∙◌, ap, true, false, ◌⊎◌, List, [], ◌∷◌, length, ◌==◌, arith, inl,
  inr, two32, Bool-cases,
}
use pmbackend.Mem.{load, with_mem, store}
use pmbackend.Mem.Frame.{load-agree, load-store_self, load-store_ne, store-outside}
use pmbackend.Caslist.Many.{elem}
use pmbackend.Backend.{Backend, sizeof_data_hdr}
use pmbackend.Backend.Layout.{IsLaidOut, IsBlockId, place, block_len}
use pmbackend.Kv.{Handle, mem_of, poke, peek, version_of, val_len_of, TxMeta, ok, ◌>>=◌, Util}
use pmbackend.TxLog.Meta.{write_meta, write_metas}
use pmbackend.TxLog.Drop.{direct_block}
use pmbackend.TxLog.Dropped.{block-Beside}
use pmbackend.TxLog.InPlace.{head_of}
use pmbackend.TxLog.InPlace.Metas.{ids, pick, ListsFrom}
use pmbackend.TxLog.InPlace.Heads.{AllEntries}

-- Outside the checksum, the version and the length of the object at `obj`.
abbrev pub BesideFields : (obj x : ℕ) → Type 0
BesideFields obj x =
    ((x < obj) ⊎ (obj + 8 ≤ x))
    × ((x < version_of obj) ⊎ (version_of obj + 4 ≤ x))
    × ((x < val_len_of obj) ⊎ (val_len_of obj + 4 ≤ x))

-- The headers have these entries, and nothing else has changed.
pub record HeadsWritten (b : Backend) (ms : List TxMeta) (s s' : Handle) : Type 0 where
  pub only : s' ≡ record s { world = s'.world }
  pub heads :
      (x : ℕ)
      → IsBlockId b x
      → sizeof_data_hdr ≤ block_len b x
      → head_of b (mem_of s') x ≡ pick x (head_of b (mem_of s) x) ms
  pub outside :
      (x : ℕ)
      → ((id : ℕ) → IsBlockId b id → elem id (ids ms) ≡ true → BesideFields (place b id) x)
      → mem_of s' x ≡ mem_of s x

-- A block that is not among the entries keeps its own.
pick-absent : (x : ℕ) (h : TxMeta) (ms : List TxMeta) → elem x (ids ms) ≡ false → pick x h ms ≡ h
unfolding elem
pick-absent x h [] e = refl
pick-absent x h (m ∷ ms) e =
    let other : (m.id == x) ≡ false = ground (arith, e) in
    rw other (pick-absent x h ms (ground (arith, e)))

module _ (u : Util) (b : Backend) (h : IsLaidOut b) where
  -- One header.
  module _ (s : Handle) (m : TxMeta) (k : s.backend ≡ b)
      (i : IsBlockId b m.id × (sizeof_data_hdr ≤ block_len b m.id))
      (w : (m.version < two32) × (m.val_len < two32)) where
    abbrev obj : ℕ
    obj = place b m.id

    abbrev t : Handle
    t = poke 4 (val_len_of obj) m.val_len (poke 4 (version_of obj) m.version s)

    abbrev pub headed : Handle
    headed = record t {
      world = with_mem t.world (
          u.insert (mem_of t) obj (sizeof_data_hdr + t.max_key_len + peek 4 t (val_len_of obj))
            obj);
    }

    pub write_meta-headed : write_meta u s m ≡ ok headed
    unfolding write_meta
    write_meta-headed = rw (write_meta, direct_block b h 0 s m.id k i.0) refl

    headed-outside : (x : ℕ) → BesideFields obj x → mem_of headed x ≡ mem_of s x
    headed-outside x (p, q, r) =
        u.insert_outside (mem_of t) obj _ obj x p
        ∙ store-outside 4 (store 4 (mem_of s) (version_of obj) m.version) (val_len_of obj) m.val_len
            x r
        ∙ store-outside 4 (mem_of s) (version_of obj) m.version x q

    headed_self : head_of b (mem_of headed) m.id ≡ m
    headed_self =
        let m1 = store 4 (mem_of s) (version_of obj) m.version in
        let v : load 4 (mem_of headed) (version_of obj) ≡ m.version =
          load-agree 4 (mem_of t) (mem_of headed) (version_of obj)
            (λ x p q. u.insert_outside (mem_of t) obj _ obj x (omega arith))
          ∙ load-store_ne 4 4 m1 (val_len_of obj) m.val_len (version_of obj) (omega arith)
          ∙ load-store_self 4 (mem_of s) (version_of obj) m.version (omega (arith, w)) in
        let l : load 4 (mem_of headed) (val_len_of obj) ≡ m.val_len =
          load-agree 4 (mem_of t) (mem_of headed) (val_len_of obj)
            (λ x p q. u.insert_outside (mem_of t) obj _ obj x (omega arith))
          ∙ load-store_self 4 m1 (val_len_of obj) m.val_len (omega (arith, w)) in
        λ j. record { id = m.id; version = v j; val_len = l j }

    headed_other :
        (x : ℕ)
        → IsBlockId b x
        → sizeof_data_hdr ≤ block_len b x
        → (m.id == x) ≡ false
        → head_of b (mem_of headed) x ≡ head_of b (mem_of s) x
    headed_other x ix len other =
        let same : (a : ℕ)
            → place b x ≤ a
            → a < place b x + sizeof_data_hdr
            → mem_of headed a ≡ mem_of s a =
          λ a low high.
            let beside =
              block-Beside b h x m.id a ix i.0 (λ q. ground (arith, q, other)) low
                (omega (arith, len, high)) in
            headed-outside a (
              omega (arith, beside, i.1),
              omega (arith, beside, i.1),
              omega (arith, beside, i.1),
            ) in
        let v =
          load-agree 4 (mem_of s) (mem_of headed) (version_of (place b x))
            (λ a p q. same a (omega arith) (omega arith)) in
        let l =
          load-agree 4 (mem_of s) (mem_of headed) (val_len_of (place b x))
            (λ a p q. same a (omega arith) (omega arith)) in
        λ j. record { id = x; version = v j; val_len = l j }

    pub headed-HeadsWritten : HeadsWritten b (m ∷ []) s headed
    unfolding elem
    headed-HeadsWritten = record {
      only = refl;
      heads = λ x ix len. elim (Bool-cases (m.id == x)) [
        | inl same ↦
            let e : m.id ≡ x = ground (arith, same) in
            rw same (subst (λ y. head_of b (mem_of headed) y ≡ m) e headed_self)
        | inr other ↦ rw other (headed_other x ix len other)
      ];
      outside = λ x f. headed-outside x (f m.id i.0 (ground arith));
    }

  HeadsWritten-cons :
      (s s1 s2 : Handle) (m : TxMeta) (ms : List TxMeta)
      → elem m.id (ids ms) ≡ false
      → HeadsWritten b (m ∷ []) s s1
      → HeadsWritten b ms s1 s2
      → HeadsWritten b (m ∷ ms) s s2
  unfolding elem
  HeadsWritten-cons s s1 s2 m ms new p q = record {
    only = q.only ∙ ap (λ (x : Handle). record x { world = s2.world }) p.only;
    heads = λ x ix len. elim (Bool-cases (m.id == x)) [
      | inl same ↦
          let e : m.id ≡ x = ground (arith, same) in
          let absent : elem x (ids ms) ≡ false = rw e at new in
          let first : head_of b (mem_of s1) x ≡ m = rw same at (p.heads x ix len) in
          rw same (q.heads x ix len ∙ pick-absent x _ ms absent ∙ first)
      | inr other ↦
          let first : head_of b (mem_of s1) x ≡ head_of b (mem_of s) x =
            rw other at (p.heads x ix len) in
          rw other (q.heads x ix len ∙ ap (λ n. pick x n ms) first)
    ];
    outside = λ x f.
        q.outside x (λ id i e. f id i (ground (arith, e)))
        ∙ p.outside x (λ id i e. f id i (ground (arith, e)));
  }

  -- The loop writes all of them.
  pub write_metas-HeadsWritten :
      (list : ℕ → TxMeta) (ms : List TxMeta) (i : ℕ) (s : Handle)
      → s.backend ≡ b
      → AllEntries b ms
      → ListsFrom list i ms
      → (s' : Handle) × (write_metas u (length ms) list i s ≡ ok s') × HeadsWritten b ms s s'
  unfolding write_metas
  write_metas-HeadsWritten list [] i s k a e =
      (s, refl, record { only = refl; heads = λ x j len. refl; outside = λ x f. refl })
  write_metas-HeadsWritten list (m ∷ ms) i s k (j, w, new, a) (here, e) =
      let p = headed-HeadsWritten s m k j w in
      let s1 = headed s m k j w in
      let one : write_meta u s (list i) ≡ ok s1 =
        ap (write_meta u s) here ∙ write_meta-headed s m k j w in
      let (s2, made, q) = write_metas-HeadsWritten list ms (i + 1) s1 k a e in
      (
        s2,
        ap (λ r. r >>= (λ t. write_metas u (length ms) list (i + 1) t)) one ∙ made,
        HeadsWritten-cons s s1 s2 m ms new p q,
      )
