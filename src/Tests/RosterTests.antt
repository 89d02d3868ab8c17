-- ===== src/Tests/RosterTests.antt =====
-- src/abstractroster.cpp on small rosters.
use jreen.Base.{
  true, some, [], ◌∷◌, ◌≡◌, refl, arith, Text, text, text_discrete, get, put, index_of,
}
use jreen.Prep.{Preps}
use jreen.Jid.{set_jid, bare_of, full_of}
use jreen.Roster.{
  Roster, RosterItem, RosterQuery, from, to, both, handle_push, handle_loaded, push_item, each,
  upsert, set_data, Subscription,
}
use jreen.Roster.Lookup.{show, last_for, decided, handle_push-show}
use jreen.Roster.Load.{handle_loaded-show}
use jreen.Roster.Observer.{IsKeyed, replay, observer_keeps_up}
use jreen.Roster.Query.{initial, create_payload, serialize, feed, bare_text}
use jreen.Roster.Query.RoundTrip.{Readable, feed-serialize}

abbrev pub item : Text → Text → Subscription → RosterItem
item jid name s = record {
  jid = jid;
  name = name;
  groups = text "work" ∷ [];
  subscription = s;
  ask = [];
}

abbrev pub known : Roster
known = record {
  version = text "1";
  items =
      (text "a@x", item (text "a@x") (text "Ann") both)
      ∷ (text "b@x", item (text "b@x") (text "Bob") to)
      ∷ [];
}

abbrev query : RosterQuery
query = record {
  ver = text "2";
  items = item (text "b@x") (text "Rob") from ∷ item (text "c@x") (text "Cid") both ∷ [];
}

push_runs :
    get (text "b@x") (handle_push query known).0.items ≡ some (item (text "b@x") (text "Rob") from)
unfolding handle_push each push_item upsert set_data get put text_discrete
push_runs = refl

handle_loaded-show_example :
    show (get (text "a@x") (handle_loaded (some query) known).0.items)
    ≡ show (last_for (text "a@x") query.items)
handle_loaded-show_example = handle_loaded-show query known (text "a@x")

handle_push-show_example :
    ((handle_push query known).0.version ≡ text "2")
    × ((j : Text)
        → show (get j (handle_push query known).0.items)
          ≡ decided (last_for j query.items) (show (get j known.items)))
handle_push-show_example = handle_push-show query known

known-IsKeyed : IsKeyed known.items
unfolding get
known-IsKeyed = record { keyed = λ k i h. ground arith }

observer_keeps_up_example :
    (replay (handle_push query known).1 known.items ≡ (handle_push query known).0.items)
    × IsKeyed (handle_push query known).0.items
    × (replay (handle_loaded (some query) known).1 known.items
        ≡ (handle_loaded (some query) known).0.items)
    × IsKeyed (handle_loaded (some query) known).0.items
observer_keeps_up_example = observer_keeps_up known query (some query) known-IsKeyed

abbrev pub plain : Preps
plain = record {
  node_prep = λ s. (true, s);
  name_prep = λ s. (true, s);
  resource_prep = λ s. (true, s);
}

query-Readable : Readable plain query.items
unfolding bare_text set_jid bare_of full_of index_of
query-Readable = (refl, ((λ e. cc), tt), (refl, ((λ e. cc), tt), tt))

feed-serialize_example :
    create_payload (feed plain (serialize query) initial) ≡ record { ver = []; items = query.items }
feed-serialize_example = feed-serialize plain query query-Readable
