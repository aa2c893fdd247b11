-- ===== src/Lib.antt =====
-- Verification of orcaCDE: the C library that the Wayland daemons of the desktop share, its pager,
-- its toplevel daemon, its panel and its backdrop daemon.
--
-- The daemons talk to a runtime service over a local socket. A client sends requests and reads
-- responses, publishes the state of topics, and subscribes to topics; each subscription keeps a
-- cache of key=value lines for each topic, which snapshots and events are merged into. A reactor
-- polls the descriptors. The pager and the toplevel daemon keep the compositor's workspaces and
-- windows, publish them as lines key=value, and carry out commands from a FIFO. The panel reads
-- these topics and its layout, places its parts, and asks for what is pressed. The backdrop daemon
-- runs a swaybg process for each output.
--
-- Parts, with paths from the repository's root:
--   Runtime            src/nscde_wayland_common/runtime-client.c and runtime-client.h
--     Runtime/Buffer        append_bytes, append_text; Bounds: capacity
--     Runtime/Frame         parse_frame_metadata; Metadata: what it stores
--     Runtime/Cache         find_topic_cache, topic_cache_remove_key, topic_cache_set_key,
--                           split_csv_token, merge_topic_cache; Slots: the table, Lines and
--                           Overlay: the contents as a map, Valid: the invariant
--     Runtime/Subscription  nscde_runtime_subscription_init, _close, _read and, in Drain, _drain
--                           with Progress and Endings; Framing and Reads: the stream of bytes,
--                           Merging: what is handed over
--     Runtime/Transport     resolve_state_dir, resolve_socket_path, connect_runtime_socket,
--                           send_frame_request, read_response_frame; Paths, Sending, Responses
--     Runtime/Request       nscde_runtime_query_topic, _ctl_workspace_switch, _publish_topic,
--                           _publisher_open, _publisher_send, _publisher_close and
--                           _subscribe_topics; Queries, Publishing, Subscribing
--     Runtime/Reactor       nscde_fd_reactor_init, _add, _remove, _run_once; Watching, Dispatch
--   Layout             src/nscde_wayland_common/panel-layout-contract.c and
--                      panel-layout-contract.h; Fields: the keys, Validity, Settling, Files
--   Daemon             what src/nscde_pagerd/nscde_pagerd.c and src/nscde_toplevel/nscde_toplevel.c
--                      share: Slots, the array of handles with Validity and Removal; Commands, the
--                      lines of the FIFO; FilePaths, init_paths; Lines, what is published
--   Pager              src/nscde_pagerd/nscde_pagerd.c: the slots of workspaces and the callbacks;
--                      State: write_workspaces_state, update_state; Events: the callbacks by handle;
--                      Control: process_fifo_commands, with Switching; Validity, Removal
--   Toplevel           src/nscde_toplevel/nscde_toplevel.c, in the same way: State, Events, Control
--                      with Ids; Validity and Runs, Removal
--   Panel              src/nscde_paneld/nscde_paneld.c
--     Panel/Settings        the loops over lines of the parsers; Lines: reading back
--     Panel/Workspaces, Theme, Subpanels
--                           parse_workspaces_env_contents, parse_env_contents,
--                           parse_subpanel_env_contents; Names: with the pager, Usable
--     Panel/Modules, Metrics, Launchers, Applets
--                           lookup_panel_module, the layout's fields, rebuild_launchers,
--                           rebuild_applets with Widths and Stale
--     Panel/State           the state and the layout model
--     Panel/Geometry        compute_panel_layout_model, with Buttons; Tiling
--     Panel/Hits            hit_test_panel, hit_test_subpanel; Found
--     Panel/Actions         open_subpanel, close_subpanel, with Dispatch: dispatch_panel_hit,
--                           pointer_button; Pressed
--     Panel/Frames          request_render, render_and_commit and the surface's callbacks
--     Panel/Updates         apply_runtime_frame and what the topics change; Drawn, Undrawn
--     Panel/Events          the events that redraw the panel
--     Panel/Runtime         sync_runtime_state, handle_runtime_subscription; Active
--   Backdrop           src/nscde_backdropd/nscde_backdropd.c: Processes, the swaybg processes and the
--                      mirror backdrops.env; Updates, the topic; Start, the first values; Tracked,
--                      Repeated
--   Prelude            Boolean tests, lists, C strings, atoi, integers
--   Tests              runs on concrete data
--
-- Conventions. A C string is the list of its bytes before the zero. A pointer that may be null,
-- and a descriptor that may be -1, is an Option. A struct is a record, and the layout's struct, of
-- one field for each key, is the list of its fields. A function that changes its argument returns
-- the new one. Null arguments that every caller excludes are left out.
--
-- Outside of the program, and so parameters: alloc tells which sizes malloc and realloc grant; the
-- answers to read and write are lists of outcomes, interrupted calls among them; the environment,
-- connect, poll and the handlers of the reactor and the drain are arguments. Numbers are exact:
-- the overflow of size_t in the doubling of a buffer, and what atoi and atoll do out of range, are
-- not modelled. Closing descriptors and freeing memory leave no trace in the model.
--
-- Fuel: the doubling loop takes as many rounds as bytes are required, and each round at least
-- doubles a capacity that is not 0. A drain takes one more round than there are pending bytes,
-- as each frame takes at least the two bytes of its delimiter off them. The retries of a query
-- are 50, as in the program. All else is structural.
--
-- A handle of the compositor is a number, and the slot that its listener was given is kept with
-- it. Positions on the panel are exact integers, the panel's width and height too, which the
-- program keeps in unsigned ones. A colour is its three parts over 255; scan stands for sscanf.
-- A drawing is the flags that it changes and, as committed, the picture that it is drawn from;
-- buffer says whether there is a buffer to draw into, the same for the frames of one drain, as
-- are the answers to the backdrop daemon; the requests that place a surface are not recorded.
-- The callbacks that a round trip of Wayland runs are an argument.
--
-- Not modelled: the daemons' waiting for Wayland's descriptor, their signals, timers and main
-- functions, and the making of FIFOs; the panel's drawing with cairo, its palettes in floating
-- point, its output's scale and the live state of its applets; the backdrop daemon's probe of
-- outputs; the pixel
-- icons (src/nscde_common), the protocol code that wayland-scanner generates, pool-buffer.c, and
-- everything that is not C.
pub mod Prelude
pub mod Runtime
pub mod Layout
pub mod Daemon
pub mod Pager
pub mod Toplevel
pub mod Panel
pub mod Backdrop
mod Tests
