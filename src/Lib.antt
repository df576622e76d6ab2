-- ===== src/Lib.antt =====
-- lrmux, a terminal multiplexer: a server owns the sessions, their windows and panes and the child
-- processes in them; clients attach over a socket, send keys and commands, and draw what the
-- server sends. This library models the parts of it that hold its own logic with no input or
-- output, and states what makes them correct.
--
-- How the parts interact. The output of a child goes through a parser (the vte crate), whose
-- callbacks (src/vt/mod.rs) change the grid of the pane (src/grid); rows that scroll off go to the
-- pane's history (src/grid/scrollback.rs) and wait to be sent. The panes of a window stand in a
-- layout tree (src/layout/mod.rs), which says how large each pane is, and so when its grid is
-- resized; the window (src/server/window.rs) keeps the panes beside that tree. Clients and server
-- exchange frames (src/proto/mod.rs).
--
-- Base: the names shared by all modules: Boolean tests and `if` (Base/Tests), lists over the
-- native numbers (Base/Lists), ranges and sums of machine words (Base/Words), options in sequence
-- (Base/Options), numbers as text (Base/Decimal).
-- Float: the operations on `f64` that the layout uses, a parameter about which nothing is assumed,
-- but in the one theorem on the divider that names it: that a ratio of two sizes, times the second
-- and rounded, is the first.
-- Layout, for src/layout/mod.rs: the tree and `split`, `remove`, `contains`, `pane_ids` (Tree;
-- `split` is named `split_pane` there, since `split` is a constructor), `Rect`, `split_rect` and
-- `reflow` (Geometry), the presets that rebuild the tree (Presets), what edits do to the list of
-- panes (Edit), where the panes are put (Cover), what the presets do to the list of panes
-- (Rebuild); `neighbor` (Neighbor), which pane it chooses (Nearest) and where that lies (Beside);
-- `resize_border` (Border), the panes (Divider) and the divider it moves (Moved); `to_tmux_str`
-- (Text), its rectangles and its checksum (Outer).
-- Proto, for src/proto/mod.rs: bytes and lossy UTF-8 decoding (Utf8), the readers of numbers,
-- texts and frames (Reader), `ClientMsg` (Message), `encode_client` (Encode) and `decode_client`
-- (Decode), each arm of the two matches that is more than a line being a function of its own; then
-- the laws of the readers (Readers), the round trip of a payload (RoundTrip), frames in a stream
-- (Stream), and the message `NewSession` (NewSession). Server, for the other direction:
-- `ServerMsg` (Message), the cells (Cells), `encode_server` (Encode) and `decode_server` (Decode),
-- the laws of its readers (Puts), the round trip arm by arm (Arms) and whole (RoundTrip), and
-- frames (Stream). A reader is a function from the bytes left to a result: a value with the rest,
-- an error, or a panic.
-- Grid, for src/grid: cells (Cell), the slice operations of Rust (Slice), the history (Scrollback)
-- and its laws (History); the grid, its cursor and its scrolling (Screen), the operations inside a
-- line, the erasing ones and `resize` (Line); what scrolling and the insertion and deletion of
-- lines do (Middle, Scroll, Lines); the well-formedness of a grid (Valid) and each operation
-- against it (Rows, Cursor, Cells, Resize); margins below the screen (Margins); the dirty rows and the
-- mouse flags (Dirty). An operation that
-- can panic returns an Option, and `none` is the panic: an index or a slice out of range, or a
-- subtraction below zero, which a debug build checks.
-- Vt, for src/vt/mod.rs: `set_sgr` of src/grid/mod.rs (Sgr), the helpers of the callbacks
-- (Handler), the callbacks (Dispatch), the callbacks and well-formedness (Safe), and the grids
-- that a pane can reach (Reach).
-- Window, for src/server/window.rs: the window, its focus, zoom and size (State), the operations
-- on its layout and panes (Operations), these as data (Run); the invariant (Invariant), lists of
-- ids (Ids), focus (Focus), the operations that keep the panes (Preserve), splitting and removing
-- (Edit), and all of them (Safe); the sizes of the panes (Sized) and the active pane
-- beside a removed one (Kept). A panic is `none`.
-- EventLoop, for src/server/event_loop.rs: the fields of a payload (Fields), `try_parse_frame`
-- (Frame), what the loop does with a read of a client, and with its bytes once a relay is open
-- (Loop); the readers (Safe), the decoder behind them (Framed) and the whole (Total) on bytes of any
-- kind; the bytes of a relay (Relay); a turn of the loop (Turns), and reads that cut the stream
-- anywhere (Chunks); what `encode_client` writes, field by field (Puts), arm by arm (Arrives) and
-- as a stream (Delivery). What a message does to the server, whether a token is refused, and what
-- the peer of a relay does are arguments of the loop: its theorems hold for any. The reads are those
-- that give bytes, and of one client with no other between them.
-- Sessions, for src/server/session.rs and what the dispatch of src/server/event_loop.rs does to the
-- sessions, to the windows of src/server/window.rs in them and to the places where the clients look:
-- the state (State), the messages that choose, make or remove a window or a session (Requests), those
-- that change a window and the end of a child (Windows), all of them as data (Run); where clients may
-- look (Placed), also when sessions and windows come and go (Moves); the messages one by one
-- (Preserve, Served, Changes) and together (Safe); how clients are taken off the list (Remove), and
-- which of them a new session takes along (Switch). What
-- is sent to the clients, the colors and the options of a session are left out, and so are the
-- messages that change nothing else.
-- Replies, for the replies that a pane of src/server/pane.rs gives to the queries of its child: the
-- queue and its calls (Queue), what a flush writes (Order), and every call at its time (Calls). Times
-- are milliseconds, and each call is given its time and whether the terminal is cooked.
-- Input, for src/client/input_filter.rs: the filter of terminal replies in what the client reads
-- (Filter); what its loop does from any place on (Scan); reads one after the other (Split); the
-- sequences a terminal sends (Tokens); the timeout of a hold (Hold); a read cut behind an ESC
-- (Cut).
--
-- Bounds. Numbers are natural numbers. On `u16` the additions of the layout wrap or saturate as
-- written; the fields of a message are in the range of their types where a theorem says so. The
-- sizes and the places of a cursor are taken to be far below 2^31, so that the casts to `i32` in
-- `move_cursor_rel` change nothing. `to_decimal` has fuel for twenty digits, which is enough for a
-- `usize`. The recursion of the presets has the length of its list as fuel, which is enough since
-- each call is on a shorter list. All other loops are structural; the loop of `set_sgr` counts the
-- groups that it passes over. The loop of the input filter has a length of fuel, one for each
-- byte; every turn uses up a byte. The loop over a client's buffer has the length of the buffer and
-- one as fuel; every turn but the last takes at least four bytes off it.
--
-- Not modelled: the parser itself (the vte crate), of which only its calls are an input; the text
-- of the names of the presets; what the event loop sends, and its commands in control mode; the
-- process behind a pane; the drawing of the clients, sockets, TLS, configuration, and the command
-- line.
pub mod Base
pub mod Float
pub mod Layout
pub mod Proto
pub mod Grid
pub mod Vt
pub mod Input
pub mod Window
pub mod EventLoop
pub mod Sessions
pub mod Replies
