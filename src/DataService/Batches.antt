-- ===== src/DataService/Batches.antt =====
-- What publishing the items under one key sends, keeps and loses.
use mathlib.Core.List.{append_assoc, append-nil}
use wolk_connect_cpp.Base.{
  ℕ, zero, suc, ◌≤◌, ◌<◌, ◌≡◌, ◌⊎◌, inl, inr, refl, sym, ap, ◌∙◌, String, true, false, Option, none,
  some, List, [], ◌∷◌, ◌++◌, All, length, take, drop, take-append-drop, length-drop, is_nil, arith,
  str_eq, str_eq_refl, Bool-cases, Option-cases,
}
use wolk_connect_cpp.Sdk.Connectivity.{Message, Connectivity}
use wolk_connect_cpp.Sdk.Persistence.{Queues}
use wolk_connect_cpp.DataService.{World, publish_batches, publish_batch_items_count}

length-take-le {ℓ} : {A : Type ℓ} (n : ℕ) (xs : List A) → length (take n xs) ≤ n
length-take-le zero xs = omega arith
length-take-le (suc n) [] = omega arith
length-take-le (suc n) (x ∷ xs) = omega (arith, length-take-le n xs)

pos_of_is_nil {ℓ} : {A : Type ℓ} (xs : List A) → is_nil xs ≡ false → 0 < length xs
pos_of_is_nil [] h = cc
pos_of_is_nil (x ∷ xs) h = omega arith

take-nil {ℓ} : {A : Type ℓ} (n : ℕ) (xs : List A) → is_nil (take (suc n) xs) ≡ true → xs ≡ []
take-nil n [] h = refl
take-nil n (x ∷ xs) h = cc

drop-shorter {ℓ} :
    {A : Type ℓ} (n : ℕ) (xs : List A)
    → is_nil (take (suc n) xs) ≡ false
    → length (drop (suc n) xs) < length xs
drop-shorter n [] h = cc
drop-shorter n (x ∷ xs) h = omega (arith, length-drop n xs)

module _ (net : Connectivity) {Store A : Type 0} (queue : Queues Store A)
    (make_message : List A → Option Message) where
  -- The batches that went out with their messages: their items, and the messages, in order.
  abbrev pub carried : List (List A × Message) → List A
  carried [] = []
  carried ((batch, m) ∷ out) = batch ++ carried out

  abbrev pub messages_of : List (List A × Message) → List Message
  messages_of [] = []
  messages_of ((batch, m) ∷ out) = m ∷ messages_of out

  -- How publishing under a key leads from one world to another: the messages that went out, in
  -- batches of 50 at most; the items that were dropped since no message could be made of them; and
  -- why it stopped.
  pub record IsPublished (key : String) (w w' : World net Store) : Type 0 where
    pub outgoing : List (List A × Message)
    pub lost : List A
    pub sent : net.sent w'.network ≡ net.sent w.network ++ messages_of outgoing
    pub conserved : carried outgoing ++ (lost ++ queue.items w'.store key) ≡ queue.items w.store key
    pub batches : All (λ o. (make_message o.0 ≡ some o.1) × (length o.0 ≤ 50)) outgoing
    pub lost_unmakeable : (lost ≡ []) ⊎ ((make_message lost ≡ none) × (length lost ≤ 50))
    pub others :
        (j : String) → str_eq key j ≡ false → queue.items w'.store j ≡ queue.items w.store j
    pub stopped :
        (queue.items w'.store key ≡ [])
        ⊎ ((make_message lost ≡ none) × (0 < length lost))
        ⊎ ((n : net.Network) × (m : Message) × (make_message (take 50 (queue.items w'.store key))
              ≡ some m)
            × ((net.publish n m).0 ≡ false))

  abbrev dropped : World net Store → String → Store
  dropped w key = queue.remove w.store key publish_batch_items_count

  items-dropped :
      (w : World net Store) (key : String)
      → queue.items (dropped w key) key ≡ drop 50 (queue.items w.store key)
  items-dropped w key = rw (queue.items-remove w.store key key 50, str_eq_refl key)

  items-dropped_ne :
      (w : World net Store) (key j : String)
      → str_eq key j ≡ false
      → queue.items (dropped w key) j ≡ queue.items w.store j
  items-dropped_ne w key j h = rw (queue.items-remove w.store key j 50, h)

  nothing_left :
      (w : World net Store) (key : String) → queue.items w.store key ≡ [] → IsPublished key w w
  nothing_left w key e = record {
    outgoing = [];
    lost = [];
    sent = sym (append-nil _);
    conserved = refl;
    batches = tt;
    lost_unmakeable = inl refl;
    others = λ j h. refl;
    stopped = inl e;
  }

  batch_lost :
      (w : World net Store) (key : String)
      → is_nil (take 50 (queue.items w.store key)) ≡ false
      → make_message (take 50 (queue.items w.store key)) ≡ none
      → IsPublished key w (record w { store = dropped w key })
  batch_lost w key some_ e = record {
    outgoing = [];
    lost = take 50 (queue.items w.store key);
    sent = sym (append-nil _);
    conserved = rw (items-dropped w key) (take-append-drop 50 (queue.items w.store key));
    batches = tt;
    lost_unmakeable = inr (e, length-take-le 50 (queue.items w.store key));
    others = items-dropped_ne w key;
    stopped = inr (inl (e, pos_of_is_nil _ some_));
  }

  batch_refused :
      (w : World net Store) (key : String) (m : Message)
      → make_message (take 50 (queue.items w.store key)) ≡ some m
      → (net.publish w.network m).0 ≡ false
      → IsPublished key w (record w { network = (net.publish w.network m).1 })
  batch_refused w key m e r = record {
    outgoing = [];
    lost = [];
    sent = net.sent-publish_refused w.network m r ∙ sym (append-nil _);
    conserved = refl;
    batches = tt;
    lost_unmakeable = inl refl;
    others = λ j h. refl;
    stopped = inr (inr (w.network, m, e, r));
  }

  batch_sent :
      (w w' : World net Store) (key : String) (m : Message)
      → make_message (take 50 (queue.items w.store key)) ≡ some m
      → (net.publish w.network m).0 ≡ true
      → IsPublished key (record { store = dropped w key; network = (net.publish w.network m).1 }) w'
      → IsPublished key w w'
  batch_sent w w' key m e p rest = record {
    outgoing = (take 50 (queue.items w.store key), m) ∷ rest.outgoing;
    lost = rest.lost;
    sent =
        rest.sent
        ∙ ap (λ x. x ++ messages_of rest.outgoing) (net.sent-publish w.network m p)
        ∙ append_assoc (net.sent w.network) (m ∷ []) (messages_of rest.outgoing);
    conserved =
        append_assoc (take 50 (queue.items w.store key)) (carried rest.outgoing) _
        ∙ ap (◌++◌ (take 50 (queue.items w.store key))) (rest.conserved ∙ items-dropped w key)
        ∙ take-append-drop 50 (queue.items w.store key);
    batches = ((e, length-take-le 50 (queue.items w.store key)), rest.batches);
    lost_unmakeable = rest.lost_unmakeable;
    others = λ j h. rest.others j h ∙ items-dropped_ne w key j h;
    stopped = rest.stopped;
  }

  -- With more fuel than items wait under the key, publishing under it returns, whatever the connection
  -- does: the items that went out, in order and in batches of at most 50, then those dropped since no
  -- message could be made of them, then those that still wait, are the items that waited before; it
  -- stops when nothing waits, when it dropped a batch, or when the connection refused the next batch;
  -- the items under other keys stay.
  pub publish_batches-IsPublished :
      (fuel : ℕ) (w : World net Store) (key : String)
      → length (queue.items w.store key) < fuel
      → (w' : World net Store) × (publish_batches net queue make_message fuel w key ≡ some w')
        × IsPublished key w w'
  unfolding publish_batches
  publish_batches-IsPublished zero w key h = elim h [ ]
  publish_batches-IsPublished (suc fuel) w key h =
      let batch : List A = take 50 (queue.items w.store key) in
      elim (Bool-cases (is_nil batch)) [
        | inl none_left ↦ (
          w,
          rw (queue.get-items w.store key 50, none_left),
          nothing_left w key (take-nil 49 _ none_left),
        )
        | inr some_left ↦ elim (Option-cases (make_message batch)) [
          | inl bad ↦ (
            record w { store = dropped w key },
            rw (queue.get-items w.store key 50, some_left, bad),
            batch_lost w key some_left bad,
          )
          | inr (m, good) ↦ elim (Bool-cases (net.publish w.network m).0) [
            | inr refused ↦ (
              record w { network = (net.publish w.network m).1 },
              rw (queue.get-items w.store key 50, some_left, good, refused),
              batch_refused w key m good refused,
            )
            | inl published ↦
                let next : World net Store = record {
                  store = dropped w key;
                  network = (net.publish w.network m).1;
                } in
                let fewer : length (queue.items next.store key) < fuel =
                  omega (arith, ap length (items-dropped w key), drop-shorter 49 _ some_left) in
                let (w', e, rest) = publish_batches-IsPublished fuel next key fewer in
                (
                  w',
                  rw (queue.get-items w.store key 50, some_left, good, published) e,
                  batch_sent w w' key m good published rest,
                )
          ]
        ]
      ]
