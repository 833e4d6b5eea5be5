-- ===== src/Fops/Faults.antt =====
-- Uses of the polling interface that lose an update, free the vector twice, or block every writer.
use ribdriver.Base.{
  ◌+◌, ◌*◌, ◌≡◌, refl, ◌≢◌, true, false, none, some, List, [], ◌∷◌, ◌++◌, arith, length,
  length-append, length-take_le, ◌≤◌,
}
use ribdriver.Memory.{Ptr, Bytes}
use ribdriver.Base.Members.{present}
use ribdriver.Table.{Layout, File, Update, erestartsys, value, sizeof_entry, sizeof_update}
use ribdriver.Fops.{
  Driver, serialize, serialize_all, clamp_count, ReadEnv, read_enter, read_copy, read_leave,
  copy_vector, kfree_vector, rt_read, rt_write,
}
use ribdriver.Fops.Round.{calm_read, share, Serving, last_driver, rt_read-last}

module _ ⦃lay : Layout⦄ where
  -- That other reader frees the vector; if it reads again before an update is gathered, the vector
  -- is freed a second time.
  pub vector_freed_twice :
      (us : List Update) (f g : File) (d : Driver)
      → Serving us d
      → d.table.poll_readers_list ≡ g ∷ []
      → f ≢ g
      → present f d.black_listed_poll_readers_list ≡ false
      → (rt_read calm_read f d ≡ some ((share us).0, (share us).1, last_driver f d))
        × (rt_read calm_read f (last_driver f d) ≡ none)
  unfolding rt_read read_enter read_copy copy_vector read_leave kfree_vector
  vector_freed_twice us f g d s only ne f_new =
      (rt_read-last us f d s f_new (rw only refl), ground (arith, only))

  -- Whenever `rt_read` returns -ERESTARTSYS, it still holds `rw_sem`: in the state that it leaves,
  -- an `rt_write` with a good user pointer, whatever its message, blocks in `down_write`.
  pub interrupted_read_blocks :
      (env : ReadEnv) (f : File) (d d' : Driver) (bytes : Bytes) (fresh : Ptr) (msg : Update)
      → rt_read env f d ≡ some (bytes, erestartsys, d')
      → rt_write true fresh msg d' ≡ none
  unfolding rt_read rt_write read_enter
  interrupted_read_blocks env f d d' bytes fresh msg e = ground arith

  -- Every field of an entry has its bytes.
  pub record IsFull (u : Update) : Type 0 where
    pub dst : length u.entry.dst_ip ≡ 16
    pub hop : length u.entry.nxt_hop_ip ≡ lay.width
    pub oif : length u.entry.oif ≡ 16

  abbrev pub AllFull : List Update → Type 0
  AllFull [] = Unit
  AllFull (u ∷ us) = IsFull u × AllFull us

  length-serialize : (u : Update) → IsFull u → length (serialize u) ≡ sizeof_update
  length-serialize u w = omega (
    arith,
    w.dst,
    w.hop,
    w.oif,
    length-append u.entry.dst_ip (u.entry.nxt_hop_ip ++ u.entry.oif),
    length-append u.entry.nxt_hop_ip u.entry.oif,
  )

  length-serialize_all :
      (us : List Update) → AllFull us → length (serialize_all us) ≡ sizeof_update * length us
  length-serialize_all [] w = omega arith
  length-serialize_all (u ∷ us) (w, ws) = omega (
    arith,
    length-append (serialize u) (serialize_all us),
    length-serialize u w,
    length-serialize_all us ws,
  )

  -- A reader that is told `n` updates gets the bytes of `n` entries, and not those of `n` updates:
  -- the copy counts entries, so that four bytes of each update are missing at the end.
  pub share_cut_short :
      (us : List Update)
      → AllFull us
      → length us ≤ 20
      → (length (share us).0 + 4 * length us ≡ length (serialize_all us))
        × ((share us).1 ≡ value (length us))
  share_cut_short us w few =
      let all = length-serialize_all us w in
      let unclamped : clamp_count (length us) ≡ length us = ground arith in
      rw unclamped (
        omega (
          arith,
          all,
          length-take_le (sizeof_entry * length us) (serialize_all us) (omega (arith, all)),
        ),
        refl,
      )
