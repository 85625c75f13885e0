-- ===== src/Tlv/Reading.antt =====
-- property_bag_tlv.cpp: the decoder on a bag of entries.
use nocturnation_stickc.Prelude.{
  length, get_or, All, take-append, get_or-append, get_or-append_add, drop-append_add, slice, ℕ,
  ◌+◌, ◌≤◌, ◌<◌, ◌≡◌, refl, ◌∙◌, Bool, true, false, some, List, [], ◌∷◌, ◌++◌, arith, Bool-cases,
  inl, inr, length-append, append_assoc, ◌==◌,
}
use nocturnation_stickc.Frame.Types.{Bytes}
use nocturnation_stickc.Tlv.{
  DecodeError, TlvEntry, ok, read_entry, decode_entries, callback_abort, decode_property_bag,
}

-- An entry as the wire holds it, in front of what follows.
abbrev pub entry_then : TlvEntry → Bytes → Bytes
entry_then e rest = e.key_len ∷ (e.key ++ (e.kind ∷ e.value_len ∷ (e.value ++ rest)))

-- The size of an entry on the wire.
abbrev pub entry_size : TlvEntry → ℕ
entry_size e = 3 + e.key_len + e.value_len

-- The lengths are those of the contents, and the key is not empty.
pub record IsEntry (e : TlvEntry) : Type 0 where
  pub key_size : length e.key ≡ e.key_len
  pub key_some : 0 < e.key_len
  pub value_size : length e.value ≡ e.value_len

-- The bytes of a bag behind its count.
abbrev pub entries_then : List TlvEntry → Bytes → Bytes
entries_then [] rest = rest
entries_then (e ∷ es) rest = entry_then e (entries_then es rest)

abbrev pub total_size : List TlvEntry → ℕ
total_size [] = 0
total_size (e ∷ es) = entry_size e + total_size es

-- What the callback sees: the entries in order, up to the one at which it stops.
abbrev pub walk : {S : Type 0} → (TlvEntry → S → Bool × S) → List TlvEntry → S → DecodeError × S
walk cb [] ctx = (ok, ctx)
walk cb (e ∷ es) ctx =
    let (go_on, ctx') = cb e ctx in
    elim go_on [ true ↦ walk cb es ctx' | false ↦ (callback_abort, ctx') ]

read_entry-append :
    (pre rest : Bytes) (e : TlvEntry) (off buflen : ℕ)
    → IsEntry e
    → length pre ≡ off
    → off + entry_size e ≤ buflen
    → read_entry (pre ++ entry_then e rest) buflen off ≡ some (e, off + entry_size e)
unfolding read_entry
read_entry-append pre rest e off buflen v at room =
    let k = e.key_len in
    let buf = pre ++ entry_then e rest in
    let tail = e.kind ∷ e.value_len ∷ (e.value ++ rest) in
    let behind = e.value_len ∷ (e.value ++ rest) in
    let key_at : get_or buf off 0 ≡ k = get_or-append off pre (entry_then e rest) 0 at in
    let key_is : slice buf (off + 1) k ≡ e.key =
      rw (drop-append_add (off + 1) 1 pre (entry_then e rest) (omega arith))
        (take-append k e.key tail v.key_size) in
    let kind_at : get_or buf (off + 1 + k) 0 ≡ e.kind =
      get_or-append_add (off + 1 + k) (1 + k) pre (entry_then e rest) 0 (omega arith)
      ∙ get_or-append_add (1 + k) 0 (k ∷ e.key) tail 0 (omega arith) in
    let len_at : get_or buf (off + 1 + k + 1) 0 ≡ e.value_len =
      get_or-append_add (off + 1 + k + 1) (2 + k) pre (entry_then e rest) 0 (omega arith)
      ∙ get_or-append_add (2 + k) 1 (k ∷ e.key) tail 0 (omega arith) in
    let value_is : slice buf (off + 1 + k + 1 + 1) e.value_len ≡ e.value =
      rw
        (drop-append_add (off + 1 + k + 1 + 1) (3 + k) pre (entry_then e rest) (omega arith)
          ∙ drop-append_add (3 + k) 2 (k ∷ e.key) tail (omega arith))
        (take-append e.value_len e.value rest v.value_size) in
    rw (key_at, len_at, key_is, kind_at, value_is) (ground arith)

-- A bag's first entry, moved to what the decoder has passed.
entry_then-pass :
    (pre : Bytes) (e : TlvEntry) (rest : Bytes)
    → pre ++ entry_then e rest
      ≡ (pre ++ (e.key_len ∷ (e.key ++ (e.kind ∷ e.value_len ∷ e.value)))) ++ rest
entry_then-pass pre e rest = rw (
  append_assoc pre (e.key_len ∷ (e.key ++ (e.kind ∷ e.value_len ∷ e.value))) rest,
  append_assoc e.key (e.kind ∷ e.value_len ∷ e.value) rest,
)

passed_size :
    (pre : Bytes) (e : TlvEntry) (off : ℕ)
    → IsEntry e
    → length pre ≡ off
    → length (pre ++ (e.key_len ∷ (e.key ++ (e.kind ∷ e.value_len ∷ e.value)))) ≡ off + entry_size e
passed_size pre e off v at =
    rw
      (
        length-append pre (e.key_len ∷ (e.key ++ (e.kind ∷ e.value_len ∷ e.value))),
        length-append e.key (e.kind ∷ e.value_len ∷ e.value),
        v.key_size,
        v.value_size,
        at,
      )
      (omega arith)

-- The loop on a bag of well-formed entries.
decode_entries-walk :
    {S : Type 0} (cb : TlvEntry → S → Bool × S) (es : List TlvEntry) (pre rest : Bytes)
    (off buflen : ℕ) (ctx : S)
    → All IsEntry es
    → length pre ≡ off
    → off + total_size es ≤ buflen
    → decode_entries cb (length es) (pre ++ entries_then es rest) buflen off ctx ≡ walk cb es ctx
unfolding decode_entries
decode_entries-walk cb [] pre rest off buflen ctx v at room = refl
decode_entries-walk cb (e ∷ es) pre rest off buflen ctx v at room =
    let found = read_entry-append pre (entries_then es rest) e off buflen v.0 at (omega arith) in
    rw (found, decode_entries)
      (elim (Bool-cases (cb e ctx).0) [
        | inr stop ↦ rw (stop, walk)
        | inl go_on ↦
            rw (go_on, walk, entry_then-pass pre e (entries_then es rest))
              (decode_entries-walk cb es
                (pre ++ (e.key_len ∷ (e.key ++ (e.kind ∷ e.value_len ∷ e.value)))) rest
                (off + entry_size e) buflen (cb e ctx).1 v.1 (passed_size pre e off v.0 at)
                (omega arith))
      ])

-- A bag whose count is that of its entries, each with a key and the lengths of its contents: the
-- decoder shows the callback exactly these entries, in order, until the callback stops it, and
-- returns callback_abort if it was stopped and ok otherwise.
pub decode_property_bag-walk :
    {S : Type 0} (cb : TlvEntry → S → Bool × S) (es : List TlvEntry) (rest : Bytes) (buflen : ℕ)
    (ctx : S)
    → All IsEntry es
    → 1 + total_size es ≤ buflen
    → decode_property_bag cb (length es ∷ entries_then es rest) buflen ctx ≡ walk cb es ctx
unfolding decode_property_bag
decode_property_bag-walk cb es rest buflen ctx v room =
    let some_bytes : (buflen == 0) ≡ false = ground arith in
    rw some_bytes (decode_entries-walk cb es (length es ∷ []) rest 1 buflen ctx v refl room)
