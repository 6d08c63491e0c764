-- ===== src/Database/Messages.antt =====
-- Messages that are stored and loaded again.
use edgeclaw.Prelude.{
  ℕ, suc, ◌-◌, ◌≤◌, String, ◌≡◌, refl, sym, ap, ◌∙◌, subst, Option, none, some, false, List, [],
  ◌∷◌, ◌++◌, map, length, str_eq_refl, append_assoc, append_nil, str_eq, arith, retain, take,
  filter_map, All,
}
use edgeclaw.Prelude.Int.{ℤ}
use edgeclaw.Types.{Role, user, assistant, Message}
use edgeclaw.Database.{
  Tables, Json, message_of_row, message_of_parts, row_of_message, load_messages, persist_messages,
  reverse, role_of, role_text,
}

role_of-role_text : (role : Role) → role_of (role_text role) ≡ some role
unfolding role_of role_text
role_of-role_text user = refl
role_of-role_text assistant = refl

reverse-filter_map :
    {A B : Type 0} (f : A → Option B) (x : A) (y : B) (xs : List A)
    → f x ≡ some y
    → reverse (filter_map f (x ∷ xs)) ≡ reverse (filter_map f xs) ++ y ∷ []
reverse-filter_map f x y xs e =
    ap (λ o. reverse (elim o [ none ↦ filter_map f xs | some z ↦ z ∷ filter_map f xs ])) e

module _ (json : Json) where
  -- What serde_json writes of a message's contents, it reads back.
  abbrev pub ReadsBack : Message → Type 0
  ReadsBack m =
      (s : String) × (json.write_content m.content ≡ some s)
      × (json.read_content s ≡ some m.content)

  -- A message as it is stored.
  abbrev pub stamped : ℤ → Message → Message
  stamped now m = record m { created_at = now }

  row-message :
      (user_id : String) (now : ℤ) (m : Message)
      → ReadsBack m
      → message_of_row json (row_of_message json user_id now m) ≡ some (stamped now m)
  unfolding message_of_row row_of_message message_of_parts
  row-message user_id now m reads =
      let (s, written, read) = reads in rw (written, read, role_of-role_text m.role) refl

  abbrev insert : String → ℤ → Message → Tables → Tables
  insert user_id now m db = record db { messages = row_of_message json user_id now m ∷ db.messages }

  load-insert :
      (user_id : String) (now : ℤ) (m : Message) (limit : ℕ) (db : Tables)
      → ReadsBack m
      → load_messages json user_id (suc limit) (insert user_id now m db)
        ≡ load_messages json user_id limit db ++ stamped now m ∷ []
  unfolding load_messages row_of_message
  load-insert user_id now m limit db reads = rw (str_eq_refl user_id) (
      reverse-filter_map (message_of_row json) (row_of_message json user_id now m) (stamped now m)
        (take limit (retain (λ r. str_eq r.user_id user_id) db.messages))
        (row-message user_id now m reads))

  load-insert-other :
      (user_id other : String) (now : ℤ) (m : Message) (limit : ℕ) (db : Tables)
      → str_eq user_id other ≡ false
      → load_messages json other limit (insert user_id now m db) ≡ load_messages json other limit db
  unfolding load_messages row_of_message
  load-insert-other user_id other now m limit db h = rw h refl

  -- If serde_json reads back what it writes of them, messages that are stored are the last that their user's load
  -- gives, in their order and with the time of the storing, behind the older ones for which the limit has room.
  pub load_messages-persist_messages :
      (user_id : String) (now : ℤ) (msgs : List Message) (limit : ℕ) (db : Tables)
      → All ReadsBack msgs
      → length msgs ≤ limit
      → load_messages json user_id limit (persist_messages json user_id now msgs db)
        ≡ load_messages json user_id (limit - length msgs) db ++ map (stamped now) msgs
  unfolding persist_messages
  load_messages-persist_messages user_id now [] limit db reads h =
      subst (λ k. load_messages json user_id limit db ≡ load_messages json user_id k db ++ [])
        (omega arith) (sym (append_nil (load_messages json user_id limit db)))
  load_messages-persist_messages user_id now (m ∷ msgs) limit db reads h =
      load_messages-persist_messages user_id now msgs limit (insert user_id now m db) reads.1
        (omega arith)
      ∙ subst
          (λ k.
            load_messages json user_id k (insert user_id now m db) ++ map (stamped now) msgs
            ≡ load_messages json user_id (limit - length (m ∷ msgs)) db
              ++ map (stamped now) (m ∷ msgs))
          (omega arith)
          (ap (λ l. l ++ map (stamped now) msgs)
              (load-insert user_id now m (limit - length (m ∷ msgs)) db reads.0)
            ∙ append_assoc _ (stamped now m ∷ []) (map (stamped now) msgs))

  -- Another user's messages are loaded as before.
  pub load_messages-other :
      (user_id other : String) (now : ℤ) (msgs : List Message) (limit : ℕ) (db : Tables)
      → str_eq user_id other ≡ false
      → load_messages json other limit (persist_messages json user_id now msgs db)
        ≡ load_messages json other limit db
  unfolding persist_messages
  load_messages-other user_id other now [] limit db h = refl
  load_messages-other user_id other now (m ∷ msgs) limit db h =
      load_messages-other user_id other now msgs limit (insert user_id now m db) h
      ∙ load-insert-other user_id other now m limit db h
