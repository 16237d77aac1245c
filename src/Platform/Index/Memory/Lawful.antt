-- ===== src/Platform/Index/Memory/Lawful.antt =====
-- The in memory adapter keeps the contract of the port.
use ai_chatbot.Base.{ℕ, String, List, [], ◌∷◌, map, ◌≡◌, refl, ap, arith, string_eq}
use ai_chatbot.Base.Dict.{lookup, lookup-insert, insert-NodupKeys}
use ai_chatbot.Base.State.{>>-keeps}
use ai_chatbot.Contracts.KnowledgeBase.{ChunkSet}
use ai_chatbot.Platform.Index.Intervals.{close_at, open_at}
use ai_chatbot.Platform.Index.Port.{IsLawful}
use ai_chatbot.Platform.Index.Memory.{
  Memory, empty_memory, intervals_of, add_chunk_set, open_one, open_intervals, close_one, close_all,
  close_intervals, memory_index,
}
use ai_chatbot.Platform.Index.Memory.Active.{
  is_nonempty_of_visible, is_nonempty-close, IsValid, memory_active_lem,
}
use ai_chatbot.Platform.Index.Memory.Loops.{
  accepts, store_chunks-intervals, store_chunks-keeps, store_chunks-keeps_some, store_chunks-stores,
  store_chunks-ok, open_intervals-stored, open_intervals-ok, open_intervals_lem, close_all-stored,
  close_all_lem,
}

module _ {F : Type 0} where
  pub empty_memory-IsValid : IsValid (empty_memory {F = F})
  unfolding lookup
  empty_memory-IsValid = record { distinct = tt; backed = λ c h. cc }

  pub add-IsValid : (s : Memory F) (set : ChunkSet F) → IsValid s → IsValid (add_chunk_set set s).1
  unfolding add_chunk_set
  add-IsValid s set h = record {
    distinct = rw (store_chunks-intervals set set.chunks s) h.distinct;
    backed = λ c n.
        store_chunks-keeps_some set set.chunks s c
          (h.backed c (rw (store_chunks-intervals set set.chunks s) at n));
  }

  open_one-IsValid : (v : ℕ) (c : String) (s : Memory F) → IsValid s → IsValid (open_one v c s).1
  unfolding open_one
  open_one-IsValid v c s h = record {
    distinct =
        ground (arith, insert-NodupKeys c (open_at v (intervals_of s c)) s.intervals h.distinct);
    backed = λ k n.
        ground (arith, h.backed k, lookup-insert k c (open_at v (intervals_of s c)) s.intervals);
  }

  pub open-IsValid :
      (cs : List String) (v : ℕ) (s : Memory F) → IsValid s → IsValid (open_intervals cs v s).1
  unfolding open_intervals
  open-IsValid [] v s h = h
  open-IsValid (c ∷ cs) v s h =
      >>-keeps IsValid (open_one v c) (open_intervals cs v) s (open_one-IsValid v c s h)
        (open-IsValid cs v)

  close_one-IsValid : (v : ℕ) (c : String) (s : Memory F) → IsValid s → IsValid (close_one v c s)
  unfolding close_one
  close_one-IsValid v c s h = record {
    distinct = insert-NodupKeys c (map (close_at v) (intervals_of s c)) s.intervals h.distinct;
    backed = λ k n. ground (
      arith,
      h.backed k,
      is_nonempty-close v (intervals_of s c),
      lookup-insert k c (map (close_at v) (intervals_of s c)) s.intervals,
    );
  }

  pub close-IsValid :
      (cs : List String) (v : ℕ) (s : Memory F) → IsValid s → IsValid (close_all cs v s)
  unfolding close_all
  close-IsValid [] v s h = h
  close-IsValid (c ∷ cs) v s h = close-IsValid cs v (close_one v c s) (close_one-IsValid v c s h)

  pub has-close :
      (s : Memory F) (cs : List String) (v : ℕ) (c : String)
      → lookup c (close_all cs v s).chunks ≡ lookup c s.chunks
  has-close s cs v c = ap (lookup c) (close_all-stored cs v s)

  pub has-open :
      (s : Memory F) (cs : List String) (v : ℕ) (c : String)
      → lookup c (open_intervals cs v s).1.chunks ≡ lookup c s.chunks
  has-open s cs v c = ap (lookup c) (open_intervals-stored cs v s)

  -- The in memory index fulfils the contract of the port, on every index that is valid.
  unfoldable pub memory_lawful : IsLawful (memory_index {F = F})
  unfolding add_chunk_set close_intervals
  memory_lawful = record {
    IsValid = IsValid;
    intervals = intervals_of;
    stored = λ s c. lookup c s.chunks;
    accepts = λ set. accepts set.chunks;
    stored_of_visible = λ s h c v seen. h.backed c (is_nonempty_of_visible _ v seen);
    active = memory_active_lem;
    add_ok = λ s set a. store_chunks-ok set set.chunks s a;
    add_valid = add-IsValid;
    add_intervals = λ s set c. rw (store_chunks-intervals set set.chunks s);
    add_keeps = λ s set c x e. store_chunks-keeps set set.chunks s c x e;
    add_stores = λ s set e c m. store_chunks-stores set set.chunks s c e m;
    open_ok = λ s cs v h. open_intervals-ok cs v s h;
    open_valid = λ s cs v h. open-IsValid cs v s h;
    open_stored = has-open;
    open_intervals_lem = λ s cs v h c. open_intervals_lem cs v s c h;
    close_ok = λ s cs v. refl;
    close_valid = λ s cs v h. close-IsValid cs v s h;
    close_stored = has-close;
    close_intervals_lem = λ s cs v c. close_all_lem cs v s c;
  }
