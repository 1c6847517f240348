-- ===== src/Net/Message/RoundTrip.antt =====
-- What has been added to a packet is read back from it.
use evolution078ots.Prelude.{
  ℕ, ◌+◌, ◌<◌, ◌≡◌, refl, subst, ap, sym, inl, List, [], ◌∷◌, ◌++◌, map, arith, length, All,
}
use evolution078ots.Net.Memory.{
  Agree, store8, store16, store32, store_bytes, load_bytes, load16, load32, load_bytes-store_bytes,
  store_bytes_outside, store_bytes-append,
}
use evolution078ots.Net.Message.{
  NetworkMessage, reset, advance, c_string, add_byte, add_u16, add_u32, add_string, add_position,
  get_byte, get_u16, get_u32, get_string, get_position,
}
use evolution078ots.Net.Message.Bounds.{
  Extends, Extends-trans, add_byte-Extends, add_u16-Extends, add_u32-Extends, add_string-Extends,
  add_position-Extends,
}
use evolution078ots.Net.Message.Fields.{
  Field, byte, u16, u32, string, position, kind, size, total, Fits, put, put_fields, get,
  get_fields,
}

put-Extends : (m : NetworkMessage) (f : Field) → Extends m (put m f)
unfolding put
put-Extends m (byte v) = add_byte-Extends m v
put-Extends m (u16 v) = add_u16-Extends m v
put-Extends m (u32 v) = add_u32-Extends m v
put-Extends m (string s) = add_string-Extends m s
put-Extends m (position p) = add_position-Extends m p

-- A text without NUL is all that `strlen` sees.
c_string_id : (s : List ℕ) → All (λ c. (0 < c) × (c < 256)) s → c_string s ≡ s
unfolding c_string
c_string_id [] h = refl
c_string_id (c ∷ cs) h = ground (arith, c_string_id cs h.1)

bytes_of_text : (s : List ℕ) → All (λ c. (0 < c) × (c < 256)) s → All (λ b. b < 256) s
bytes_of_text [] h = tt
bytes_of_text (c ∷ cs) h = (h.0.1, bytes_of_text cs h.1)

-- The packet that AddString leaves, where its guards pass.
add_string_room :
    (m : NetworkMessage) (s : List ℕ)
    → Fits (string s)
    → m.read_pos + (length s + 2) < 16384
    → add_string m s
      ≡ advance
          (add_u16 m (length s))
          (store_bytes (add_u16 m (length s)).msg_buf (add_u16 m (length s)).read_pos (s ++ 0 ∷ []))
          (length s)
unfolding add_string
add_string_room m s h room = rw (c_string_id s h.0) (ground arith)

module _ (m : NetworkMessage) where
  read_pos-put :
      (f : Field) → Fits f → m.read_pos + size f < 16384 → (put m f).read_pos ≡ m.read_pos + size f
  unfolding put add_byte add_u16 add_u32 add_position
  read_pos-put (byte v) h room = ground arith
  read_pos-put (u16 v) h room = ground arith
  read_pos-put (u32 v) h room = ground arith
  read_pos-put (string s) h room = rw (add_string_room m s h room) (ground arith)
  read_pos-put (position p) h room = ground arith

-- A field is read from any buffer that agrees with the written one on the bytes of the field.
module _ (m n : NetworkMessage) (same : n.read_pos ≡ m.read_pos) where
  -- AddString puts the length at the position, and the text behind it.
  text_stored :
      (s : List ℕ)
      → Fits (string s)
      → m.read_pos + (length s + 2) < 16384
      → Agree m.read_pos (m.read_pos + (length s + 2)) n.msg_buf (add_string m s).msg_buf
      → (load16 n.msg_buf n.read_pos ≡ length s)
        × (load_bytes n.msg_buf (n.read_pos + 2) (length s) ≡ s)
  unfolding add_u16 store16 store8 load16 advance
  text_stored s h room e = (
    ground (
      arith,
      add_string_room m s h room,
      e m.read_pos,
      e (m.read_pos + 1),
      store_bytes_outside (add_u16 m (length s)).msg_buf (m.read_pos + 2) m.read_pos (s ++ 0 ∷ []),
      store_bytes_outside (add_u16 m (length s)).msg_buf (m.read_pos + 2) (m.read_pos + 1)
          (s ++ 0 ∷ []),
    ),
    load_bytes-store_bytes (add_u16 m (length s)).msg_buf n.msg_buf (n.read_pos + 2) s
        (bytes_of_text s h.0)
        (λ i lo hi. ground (
          arith,
          add_string_room m s h room,
          e i,
          store_bytes-append (add_u16 m (length s)).msg_buf (n.read_pos + 2) i s (0 ∷ []),
        )),
  )

  get-put :
      (f : Field)
      → Fits f
      → m.read_pos + size f < 16384
      → Agree m.read_pos (m.read_pos + size f) n.msg_buf (put m f).msg_buf
      → get (kind f) n ≡ (f, record n { read_pos = n.read_pos + size f })
  unfolding put get get_byte get_u16 get_u32 get_string get_position add_byte add_u16 add_u32
      add_position store8 store16 store32 load16 load32
  get-put (byte v) h room e = ground (arith, e m.read_pos)
  get-put (u16 v) h room e = ground (arith, e m.read_pos, e (m.read_pos + 1))
  get-put (u32 v) h room e =
      ground (arith, e m.read_pos, e (m.read_pos + 1), e (m.read_pos + 2), e (m.read_pos + 3))
  get-put (string s) h room e = ground (arith, text_stored s h room e)
  get-put (position p) h room e = ground (
    arith,
    e m.read_pos,
    e (m.read_pos + 1),
    e (m.read_pos + 2),
    e (m.read_pos + 3),
    e (m.read_pos + 4),
  )

put_fields-Extends : (m : NetworkMessage) (fs : List Field) → Extends m (put_fields m fs)
unfolding put_fields
put_fields-Extends m [] = record {
  forward = omega arith;
  within = λ h. h;
  counted = refl;
  untouched = λ i h. refl;
}
put_fields-Extends m (f ∷ fs) =
    Extends-trans m (put m f) _ (put-Extends m f) (put_fields-Extends (put m f) fs)

-- The fields that follow a field leave its bytes alone.
first_field_kept :
    (m : NetworkMessage) (f : Field) (fs : List Field)
    → Fits f
    → m.read_pos + size f < 16384
    → Agree m.read_pos (m.read_pos + size f) (put_fields m (f ∷ fs)).msg_buf (put m f).msg_buf
unfolding put_fields
first_field_kept m f fs h room i lo hi =
    (put_fields-Extends (put m f) fs).untouched i (inl (ground (arith, read_pos-put m f h room)))

get_fields-put_fields :
    (m n : NetworkMessage) (fs : List Field)
    → n.read_pos ≡ m.read_pos
    → All Fits fs
    → m.read_pos + total fs < 16384
    → n.msg_buf ≡ (put_fields m fs).msg_buf
    → get_fields (map kind fs) n ≡ fs
unfolding get_fields
get_fields-put_fields m n [] same h room e = refl
get_fields-put_fields m n (f ∷ fs) same h room e = rw first (
    ap (◌∷◌ f) (
      get_fields-put_fields (put m f) (record n { read_pos = n.read_pos + size f }) fs
        (omega (arith, moved)) h.1 (omega (arith, moved)) later))
  where
    moved : (put m f).read_pos ≡ m.read_pos + size f
    moved = read_pos-put m f h.0 (omega arith)

    first : get (kind f) n ≡ (f, record n { read_pos = n.read_pos + size f })
    first = get-put m n same f h.0 (omega arith) (
        subst (λ b. Agree m.read_pos (m.read_pos + size f) b (put m f).msg_buf) (sym e)
          (first_field_kept m f fs h.0 (omega arith)))

    later : n.msg_buf ≡ (put_fields (put m f) fs).msg_buf
    later = unfold put_fields in e

-- The reader's view of a packet that has been filled: the position is back at the first byte.
unfoldable pub rewind : NetworkMessage → NetworkMessage
rewind m = record m { read_pos = 4 }

-- Any sequence of fields in range that a fresh packet has room for (below byte 16384, the limit of
-- GetString) is read back as it was written, when the reader asks for the same kinds in order.
pub get_fields-put_fields_fresh :
    (m : NetworkMessage) (fs : List Field)
    → All Fits fs
    → 4 + total fs < 16384
    → get_fields (map kind fs) (rewind (put_fields (reset m) fs)) ≡ fs
unfolding rewind reset
get_fields-put_fields_fresh m fs h room =
    get_fields-put_fields (reset m) (rewind (put_fields (reset m) fs)) fs refl h room refl
