-- ===== src/Tests/Wire.antt =====
-- Requests to a runtime that takes them in pieces and answers in pieces.
use orca_cde.Prelude.{
  ◌*◌, ◌≤◌, true, List, [], ◌∷◌, ◌++◌, ◌≡◌, refl, ap, arith, length, none, some, Bytes, codes,
  starts_with, split, clip, equal, take,
}
use orca_cde.Runtime.Frame.{field_len, parse_frame_metadata, strip_cr}
use orca_cde.Runtime.Request.Publishing.{publisher_send-whole, publish_topic-cut}
use orca_cde.Runtime.Request.Queries.{IsAnswer, query_topic_sound, query_topic-answered}
use orca_cde.Runtime.Request.Subscribing.{
  Subscribes, Opens, subscribe_topics-Subscribes, publisher_open-Opens,
}
use orca_cde.Runtime.Request.{
  query_text, query_topic, publish_text, publish_topic, send_text, publisher_send, publisher_open,
  subscribe_topics,
}
use orca_cde.Runtime.Subscription.{Socket, returns, ended, find_frame_delim, subscription_init}
use orca_cde.Runtime.Transport.Responses.{IsResponse, sent_back, read_response_frame-first}
use orca_cde.Runtime.Transport.{
  Environment, Peer, Written, cut_short, accepted, resolve_state_dir, resolve_socket_path,
  connect_runtime_socket, send_frame_request, read_response_frame,
}
use orca_cde.Tests.{plenty, plenty-Grants, delivering}

abbrev home_only : Environment
home_only = record { state_dir = none; cache_home = some []; home = some (codes "/home/u") }

abbrev writes : List Written
writes = accepted 3 ∷ cut_short ∷ accepted 200 ∷ []

abbrev reply : Bytes
reply = codes "TYPE=state\nTOPIC=desk\nname=one\n\n"

abbrev replies : Socket
replies =
    delivering (codes "TYPE=state\nTOPIC=desk")
      (delivering (codes "\nname=one\n\n") (returns ended ∷ []))

-- The runtime listens wherever it is looked for.
abbrev runtime : Peer
runtime = record {
  sun_path_size = 108;
  connects = λ path. some 5;
  accepts = writes;
  answers = replies;
  nonblock = true;
}

replies-found : find_frame_delim (sent_back replies) ≡ some 30
unfolding find_frame_delim starts_with
replies-found = refl

read_response_frame-first_example :
    read_response_frame plenty replies ≡ some (take 30 (sent_back replies))
read_response_frame-first_example =
    read_response_frame-first plenty plenty-Grants replies {i = 30} replies-found

query_topic-answered_example :
    query_topic plenty home_only runtime (codes "desk")
    ≡ (some (take 30 (sent_back replies)), query_text (codes "desk"))
unfolding connect_runtime_socket resolve_socket_path resolve_state_dir find_frame_delim starts_with
    parse_frame_metadata split clip equal strip_cr
query_topic-answered_example =
    query_topic-answered plenty home_only runtime (codes "desk") {fd = 5} {i = 30} plenty-Grants
      refl (omega arith) refl (omega arith, (omega arith, tt)) (omega arith) replies-found refl refl

query_topic_sound_example :
    ((query_topic plenty home_only runtime (codes "desk")).1
      ≡ clip (field_len * 2) (query_text (codes "desk")))
    × IsResponse (take 30 (sent_back replies)) (sent_back replies)
    × IsAnswer (codes "desk") (take 30 (sent_back replies))
query_topic_sound_example =
    query_topic_sound plenty home_only runtime (codes "desk") {text = take 30 (sent_back replies)}
      (ap (λ r. r.0) query_topic-answered_example)

publisher_send-whole_example :
    (publisher_send plenty home_only runtime
      (record { fd = some 4 })
      (codes "desk")
      (some (codes "a=b\n"))).1
    ≡ send_text (codes "desk") (codes "a=b\n")
unfolding publisher_send send_frame_request clip
publisher_send-whole_example =
    publisher_send-whole plenty home_only runtime (record { fd = some 4 }) (codes "desk")
      (some (codes "a=b\n")) refl

publish_topic-cut_example :
    (lost : Bytes) × (publish_text (codes "desk") (codes "a=b\n")
      ≡ (publish_topic plenty home_only runtime (codes "desk") (some (codes "a=b\n"))).1 ++ lost)
    × (9 ≤ length lost)
publish_topic-cut_example =
    publish_topic-cut plenty home_only runtime (codes "desk") (some (codes "a=b\n"))

subscribe_topics-Subscribes_example :
    Subscribes
      (connect_runtime_socket home_only runtime)
      (codes "desk,clock")
      subscription_init
      (subscribe_topics plenty home_only runtime (codes "desk,clock") subscription_init)
subscribe_topics-Subscribes_example =
    subscribe_topics-Subscribes plenty home_only runtime (codes "desk,clock") subscription_init

publisher_open-Opens_example :
    Opens
      (connect_runtime_socket home_only runtime)
      (sent_back replies)
      (codes "pager")
      (codes "desk")
      (record { fd = none })
      (publisher_open plenty home_only runtime
        (codes "pager")
        (codes "desk")
        (record { fd = none }))
publisher_open-Opens_example =
    publisher_open-Opens plenty home_only runtime (codes "pager") (codes "desk")
      (record { fd = none })
