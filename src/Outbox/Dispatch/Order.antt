-- ===== src/Outbox/Dispatch/Order.antt =====
-- `ORDER BY` and `LIMIT` lose and invent nothing: what `read_dispatchable` returns is selected by
-- its WHERE clause.
use skill_hive.Prelude.{
  ℕ, ◌≤◌, ◌≡◌, Bool, true, false, List, [], ◌∷◌, Memᴰ, arith, if◌then◌else◌, take, mem-take, length,
  length-take-le, select_where, mem-select_where,
}
use skill_hive.Store.{LocalMutation, ok}
use skill_hive.Outbox.Dispatch.{is_dispatchable, row_leb, insert, order_rows, read_dispatchable}

module _ {a : LocalMutation} where
  mem-placed :
      (m x : LocalMutation) (xs inserted : List LocalMutation) (b : Bool)
      → (Memᴰ a inserted → Memᴰ a (m ∷ xs))
      → Memᴰ a (if b then m ∷ x ∷ xs else x ∷ inserted)
      → Memᴰ a (m ∷ x ∷ xs)
  mem-placed m x xs inserted true ih h = h
  mem-placed m x xs inserted false ih (Memᴰ.head e) = Memᴰ.tail (Memᴰ.head e)
  mem-placed m x xs inserted false ih (Memᴰ.tail t) = elim (ih t) [
    | Memᴰ.head e ↦ Memᴰ.head e
    | Memᴰ.tail u ↦ Memᴰ.tail (Memᴰ.tail u)
  ]

  insert-mem :
      (m : LocalMutation) (xs : List LocalMutation) → Memᴰ a (insert m xs) → Memᴰ a (m ∷ xs)
  unfolding insert
  insert-mem m [] h = h
  insert-mem m (x ∷ xs) h = mem-placed m x xs (insert m xs) (row_leb m x) (insert-mem m xs) h

  order_rows-mem : (xs : List LocalMutation) → Memᴰ a (order_rows xs) → Memᴰ a xs
  unfolding order_rows
  order_rows-mem [] h = h
  order_rows-mem (x ∷ xs) h = elim (insert-mem x (order_rows xs) h) [
    | Memᴰ.head e ↦ Memᴰ.head e
    | Memᴰ.tail t ↦ Memᴰ.tail (order_rows-mem xs t)
  ]

module _ (now limit : ℕ) (table rows : List LocalMutation)
    (read : read_dispatchable now limit table ≡ ok rows) where
  rows_read : rows ≡ take limit (order_rows (select_where (is_dispatchable now table) table))
  unfolding read_dispatchable
  rows_read = ground arith

  -- Every row is in the table and passes the WHERE clause.
  pub read_dispatchable-mem :
      {m : LocalMutation} → Memᴰ m rows → Memᴰ m table × (is_dispatchable now table m ≡ true)
  read_dispatchable-mem h =
      mem-select_where (is_dispatchable now table) table
        (order_rows-mem _ (mem-take limit _ (rw rows_read at h)))

  pub length-read_dispatchable : length rows ≤ limit
  length-read_dispatchable = rw rows_read (length-take-le limit _)
