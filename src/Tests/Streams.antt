-- ===== src/Tests/Streams.antt =====
-- A subscription that reads two frames which arrive in odd pieces.
use orca_cde.Prelude.{
  ℕ, suc, List, [], ◌∷◌, ◌++◌, ◌≡◌, refl, arith, replicate, some, Bytes, codes, All, starts_with,
}
use orca_cde.Runtime.Buffer.{null}
use orca_cde.Runtime.Cache.{unused, topic_cache_max}
use orca_cde.Runtime.Frame.{Frame}
use orca_cde.Runtime.Subscription.Drain.Progress.{stream, drain-stream}
use orca_cde.Runtime.Subscription.Drain.{Drained, drain}
use orca_cde.Runtime.Subscription.Framing.{delim, IsFrameText}
use orca_cde.Runtime.Subscription.Merging.{buffered_unmerged}
use orca_cde.Runtime.Subscription.Reads.{pending}
use orca_cde.Runtime.Subscription.{
  Subscription, Socket, returns, ended, subscription_read, find_frame_delim, read_frame,
}
use orca_cde.Tests.{plenty, plenty-Grants, delivering}

-- A frame's text and the first half of the next.
abbrev first_text : Bytes
first_text = codes "TYPE=event\nTOPIC=desk\nname=one"

abbrev socket : Socket
socket = delivering (codes "TYPE=event\nTOPIC=desk\nname=") (
    delivering (codes "one\n\nTYPE=event\nTOPIC=")
      (delivering (codes "desk\nname=two\n\n") (returns ended ∷ [])))

abbrev waiting : Subscription
waiting = record { fd = some 3; buffer = null; topic_caches = replicate topic_cache_max unused }

-- The handler counts the frames.
abbrev count : Frame → ℕ → ℕ
count frame n = suc n

drain-stream_example :
    (d : Drained ℕ) × (drain plenty count 128 100 waiting socket 0 ≡ some d)
    × (texts : List Bytes) × All IsFrameText texts
    × (pending waiting socket ≡ stream texts (pending d.sub d.socket))
drain-stream_example =
    drain-stream plenty count 128 plenty-Grants 100 waiting socket 0 (omega arith)

-- A whole frame is in the buffer already.
abbrev behind : Subscription
behind = record waiting {
  buffer = record { text = first_text ++ (delim ++ codes "TYPE="); cap = 4096 };
}

first_text-IsFrameText : IsFrameText first_text
unfolding find_frame_delim starts_with
first_text-IsFrameText = refl

buffered_unmerged_example :
    ((subscription_read plenty behind socket).result ≡ read_frame)
    × ((subscription_read plenty behind socket).frame.contents ≡ some first_text)
    × ((subscription_read plenty behind socket).sub.topic_caches ≡ behind.topic_caches)
    × ((subscription_read plenty behind socket).sub.buffer.text ≡ codes "TYPE=")
    × ((subscription_read plenty behind socket).socket ≡ socket)
buffered_unmerged_example =
    buffered_unmerged plenty plenty-Grants behind socket first_text {fd = 3} {rest = codes "TYPE="}
      refl first_text-IsFrameText refl
