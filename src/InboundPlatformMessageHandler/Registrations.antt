-- ===== src/InboundPlatformMessageHandler/Registrations.antt =====
-- Which listener InboundPlatformMessageHandler.cpp chooses, after any registrations of listeners.
use Prim.Native.String.{compare}
use text.Mathlib.Text.{is_le}
use wolk_connect_cpp.Base.{
  String, true, false, Option, none, some, List, [], ◌∷◌, ◌++◌, ◌≡◌, ◌∙◌, refl, ap, sym, inl, inr,
  All, IsAscending, keys_of, arith, str_eq, str_eq_iff, str_eq_refl, str_lt, str_lt_irrefl,
  str_lt_trans, str_lt_asym, apart, is_le-cases, if◌then◌else◌, is_some, subst, Bool-cases,
}
use wolk_connect_cpp.FileRepository.{contains}
use wolk_connect_cpp.InboundPlatformMessageHandler.{
  Listeners, InboundPlatformMessageHandler, inbound_platform_message_handler, assign, lookup,
  message_received, add_channels, add_listener,
}
use wolk_connect_cpp.InboundPlatformMessageHandler.Routing.{
  Unmatched, dropped, routed, message_received-Routed, lookup-add_channels, device_key-add_channels,
}

module _ (listeners : Listeners) where
  open listeners use {Listener, inbound_channels_for_device, mqtt_topic_match}

  -- A handler after calls of addListener; `none` is a listener that is gone.
  abbrev pub add_listeners :
      InboundPlatformMessageHandler listeners
      → List (Option Listener)
      → InboundPlatformMessageHandler listeners
  add_listeners h [] = h
  add_listeners h (l ∷ ls) = add_listeners (add_listener listeners h l) ls

  -- The last listener of the list that has the channel, given the one before the list.
  abbrev pub owner : String → Option Listener → List (Option Listener) → String → Option Listener
  owner key o [] j = o
  owner key o (none ∷ ls) j = owner key o ls j
  owner key o (some l ∷ ls) j =
      owner key (if contains (inbound_channels_for_device l key) j then some l else o) ls j

  below-assign :
      (x channel : String) (l : Listener) (m : List (String × Listener))
      → str_lt x channel ≡ true
      → All (λ y. str_lt x y ≡ true) (keys_of m)
      → All (λ y. str_lt x y ≡ true) (keys_of (assign listeners channel l m))
  unfolding assign
  below-assign x channel l [] h a = (h, tt)
  below-assign x channel l ((k, y) ∷ m) h a = elim (Bool-cases (str_eq k channel)) [
    | inl same ↦ rw same a
    | inr other ↦ elim (Bool-cases (is_le (compare channel k))) [
      | inl le ↦ rw (other, le) (h, a)
      | inr gt ↦ rw (other, gt) (a.0, below-assign x channel l m h a.1)
    ]
  ]

  below_all :
      (x y : String) (ys : List String)
      → str_lt x y ≡ true
      → All (λ z. str_lt y z ≡ true) ys
      → All (λ z. str_lt x z ≡ true) ys
  below_all x y [] h a = tt
  below_all x y (z ∷ zs) h a = (str_lt_trans x y z h a.0, below_all x y zs h a.1)

  assign-IsAscending :
      (channel : String) (l : Listener) (m : List (String × Listener))
      → IsAscending (keys_of m)
      → IsAscending (keys_of (assign listeners channel l m))
  unfolding assign
  assign-IsAscending channel l [] a = (tt, tt)
  assign-IsAscending channel l ((k, y) ∷ m) a = elim (Bool-cases (str_eq k channel)) [
    | inl same ↦ rw same a
    | inr other ↦ elim (is_le-cases channel k) [
      | inl (le, n) ↦
          let less : str_lt channel k ≡ true =
            apart channel k n (ground (arith, str_eq_iff k channel, str_eq_iff channel k)) in
          rw (other, le) ((less, below_all channel k (keys_of m) less a.0), a)
      | inr (gt, n) ↦
          rw (other, gt) (below-assign k channel l m n a.0, assign-IsAscending channel l m a.1)
    ]
  ]

  add_channels-IsAscending :
      (h : InboundPlatformMessageHandler listeners) (l : Listener) (channels : List String)
      → IsAscending (keys_of h.channel_handlers)
      → IsAscending (keys_of (add_channels listeners h l channels).channel_handlers)
  unfolding add_channels
  add_channels-IsAscending h l [] a = a
  add_channels-IsAscending h l (c ∷ cs) a =
      add_channels-IsAscending
        (record h {
          channel_handlers = assign listeners c l h.channel_handlers;
          subscription_list = h.subscription_list ++ c ∷ [];
        })
        l cs (assign-IsAscending c l h.channel_handlers a)

  add_listeners-IsAscending :
      (h : InboundPlatformMessageHandler listeners) (ls : List (Option Listener))
      → IsAscending (keys_of h.channel_handlers)
      → IsAscending (keys_of (add_listeners h ls).channel_handlers)
  unfolding add_listener
  add_listeners-IsAscending h [] a = a
  add_listeners-IsAscending h (none ∷ ls) a = add_listeners-IsAscending h ls a
  add_listeners-IsAscending h (some l ∷ ls) a =
      let channels = inbound_channels_for_device l h.device_key in
      add_listeners-IsAscending (add_channels listeners h l channels) ls
        (add_channels-IsAscending h l channels a)

  add_listeners-owner :
      (h : InboundPlatformMessageHandler listeners) (ls : List (Option Listener)) (j : String)
      → lookup listeners j (add_listeners h ls).channel_handlers
        ≡ owner h.device_key (lookup listeners j h.channel_handlers) ls j
  unfolding add_listener
  add_listeners-owner h [] j = refl
  add_listeners-owner h (none ∷ ls) j = add_listeners-owner h ls j
  add_listeners-owner h (some l ∷ ls) j =
      let channels = inbound_channels_for_device l h.device_key in
      let next = add_channels listeners h l channels in
      add_listeners-owner next ls j
      ∙ ap (λ key. owner key (lookup listeners j next.channel_handlers) ls j)
          (device_key-add_channels listeners h l channels)
      ∙ ap (λ o. owner h.device_key o ls j) (lookup-add_channels listeners h l channels j)

  differs : (j k : String) → str_lt j k ≡ true → str_eq j k ≡ false
  differs j k h = elim (Bool-cases (str_eq j k)) [
    | inl same ↦
        ground (arith, subst (λ y. str_lt y k ≡ true) ((str_eq_iff j k).0 same) h, str_lt_irrefl k)
    | inr other ↦ other
  ]

  middle_all :
      (x : String) (before after : List (String × Listener)) (k : String) (l : Listener)
      → All (λ y. str_lt x y ≡ true) (keys_of (before ++ (k, l) ∷ after))
      → str_lt x k ≡ true
  middle_all x [] after k l a = a.0
  middle_all x (e ∷ before) after k l a = middle_all x before after k l a.1

  found_all :
      (x : String) (m : List (String × Listener)) (j : String)
      → All (λ y. str_lt x y ≡ true) (keys_of m)
      → is_some (lookup listeners j m) ≡ true
      → str_lt x j ≡ true
  unfolding lookup
  found_all x [] j a h = ground arith
  found_all x ((k, l) ∷ m) j a h = elim (Bool-cases (str_eq k j)) [
    | inl same ↦ subst (λ y. str_lt x y ≡ true) ((str_eq_iff k j).0 same) a.0
    | inr other ↦ found_all x m j a.1 (rw other at h)
  ]

  -- In a map in the order of its keys, what is before a key is not the key.
  lookup_split :
      (before after : List (String × Listener)) (k : String) (l : Listener)
      → IsAscending (keys_of (before ++ (k, l) ∷ after))
      → lookup listeners k (before ++ (k, l) ∷ after) ≡ some l
  unfolding lookup
  lookup_split [] after k l a =
      ap (λ b. if b then some l else lookup listeners k after) (str_eq_refl k)
  lookup_split ((j, x) ∷ before) after k l a =
      ap (λ b. if b then some x else lookup listeners k (before ++ (k, l) ∷ after))
        (differs j k (middle_all j before after k l a.0))
      ∙ lookup_split before after k l a.1

  -- Of the keys that match, the one that is found is the least.
  least :
      (before after : List (String × Listener)) (k j : String) (l : Listener) (channel : String)
      → IsAscending (keys_of (before ++ (k, l) ∷ after))
      → Unmatched listeners channel before
      → is_some (lookup listeners j (before ++ (k, l) ∷ after)) ≡ true
      → mqtt_topic_match j channel ≡ true
      → str_lt j k ≡ false
  unfolding lookup
  least [] after k j l channel a u h m = elim (Bool-cases (str_eq k j)) [
    | inl same ↦ subst (λ y. str_lt y k ≡ false) ((str_eq_iff k j).0 same) (str_lt_irrefl k)
    | inr other ↦ str_lt_asym k j (found_all k after j a.0 (rw other at h))
  ]
  least ((i, x) ∷ before) after k j l channel a u h m = elim (Bool-cases (str_eq i j)) [
    | inl same ↦ ground (arith, ap (λ y. mqtt_topic_match y channel) ((str_eq_iff i j).0 same), u.0)
    | inr other ↦ least before after k j l channel a.1 u.1 (rw other at h) m
  ]

  -- What happens to a message, given who owns each channel.
  pub data Delivered (h : InboundPlatformMessageHandler listeners)
      (owners : String → Option Listener) (channel payload : String)
      (h' : InboundPlatformMessageHandler listeners) : Type 0 where
    nobody :
        ((j : String) → is_some (owners j) ≡ true → mqtt_topic_match j channel ≡ false)
        → h' ≡ h
        → Delivered h owners channel payload h'
    somebody :
        (k : String) (l : Listener)
        → owners k ≡ some l
        → mqtt_topic_match k channel ≡ true
        → ((j : String)
            → is_some (owners j) ≡ true
            → mqtt_topic_match j channel ≡ true
            → str_lt j k ≡ false)
        → h' ≡ record h {
          commands = h.commands ++ (l, record { content = payload; channel = channel }) ∷ [];
        }
        → Delivered h owners channel payload h'

  Unmatched-lookup :
      (channel : String) (m : List (String × Listener)) (j : String)
      → Unmatched listeners channel m
      → is_some (lookup listeners j m) ≡ true
      → mqtt_topic_match j channel ≡ false
  unfolding lookup
  Unmatched-lookup channel [] j u h = ground arith
  Unmatched-lookup channel ((k, l) ∷ m) j u h = elim (Bool-cases (str_eq k j)) [
    | inl same ↦ ap (λ y. mqtt_topic_match y channel) (sym ((str_eq_iff k j).0 same)) ∙ u.0
    | inr other ↦ Unmatched-lookup channel m j u.1 (rw other at h)
  ]

  -- After any registrations, a message is queued once, for the last listener that registered the
  -- channel which is the least, in the order of strings, of the registered channels that match; where
  -- none matches, nothing changes.
  pub message_received-Delivered :
      (device_key : String) (ls : List (Option Listener)) (channel payload : String)
      → let h = add_listeners (inbound_platform_message_handler listeners device_key) ls in
        Delivered h
          (owner device_key none ls)
          channel
          payload
          (message_received listeners h channel payload)
  unfolding inbound_platform_message_handler lookup
  message_received-Delivered device_key ls channel payload =
      let empty = inbound_platform_message_handler listeners device_key in
      let h = add_listeners empty ls in
      let owns = λ (j : String). add_listeners-owner empty ls j in
      let ascending = add_listeners-IsAscending empty ls tt in
      elim (message_received-Routed listeners h channel payload) [
        | dropped un same ↦
            nobody
              (λ j o. Unmatched-lookup channel h.channel_handlers j un (ap is_some (owns j) ∙ o))
              same
        | routed before after k l split un matches result ↦
            let sorted = subst (λ m. IsAscending (keys_of m)) split ascending in
            somebody k l
              (sym (owns k) ∙ ap (lookup listeners k) split ∙ lookup_split before after k l sorted)
              matches
              (λ j o m.
                least before after k j l channel sorted un
                  (ap (λ x. is_some (lookup listeners j x)) (sym split) ∙ ap is_some (owns j) ∙ o)
                  m)
              result
      ]
