-- ===== src/Bindings/Foreign/Declared.antt =====
-- All functions that rexe/src/bindings.rs declares.
use iouring_http_server.Prelude.{List, ◌++◌}
use iouring_http_server.Bindings.Foreign.{Function}
use iouring_http_server.Bindings.Foreign.Queue.{queue_functions}
use iouring_http_server.Bindings.Foreign.Register.{register_functions}
use iouring_http_server.Bindings.Foreign.Enter.{enter_functions}
use iouring_http_server.Bindings.Foreign.Entry.{entry_functions}
use iouring_http_server.Bindings.Foreign.Stream.{stream_functions}
use iouring_http_server.Bindings.Foreign.Files.{file_functions}
use iouring_http_server.Bindings.Foreign.Advice.{advice_functions}
use iouring_http_server.Bindings.Foreign.Messages.{message_functions}
use iouring_http_server.Bindings.Foreign.Paths.{path_functions}
use iouring_http_server.Bindings.Foreign.Control.{control_functions}
use iouring_http_server.Bindings.Foreign.State.{state_functions}
use iouring_http_server.Bindings.Foreign.Library.{
  bufring_functions, bufpool_functions, appctx_functions, userdata_functions, address_functions,
  log_functions,
}

-- Those of clib.
abbrev pub library_functions : List Function
library_functions =
    bufring_functions ++ bufpool_functions ++ appctx_functions ++ userdata_functions
    ++ address_functions ++ log_functions

abbrev pub declared_functions : List Function
declared_functions =
    queue_functions ++ register_functions ++ enter_functions ++ entry_functions ++ stream_functions
    ++ file_functions ++ advice_functions ++ message_functions ++ path_functions
    ++ control_functions ++ state_functions ++ library_functions
