-- ===== src/Lib.antt =====
-- ServerX, an HTTP server configured by files in the manner of nginx.
--
-- A connection's bytes go to the request parser (`RequestParser`), which collects them in a buffer
-- until a header section is complete, parses the request line and the header fields, and pauses.
-- The router then finds the server and the location that the configuration has for the request,
-- the parser reads the body into a temporary file under the location's limit, by its declared
-- length or through the decoder of chunked bodies, and the router chooses the handler that answers.
-- The connection sends the answer as the socket takes it; the event dispatcher tells it when. The
-- configuration comes from a file through a lexer, a parser, a mapper and a validator.
--
-- Files, and the code that each models:
--   Common         the helpers of src/common/string.cpp, strings as lists of bytes, `std::map` as an
--                  association list, exceptions as a result type; lemmas on lists and conditionals
--   Config/Lexer   src/config/pipeline/Lexer.cpp: `tokenize` to a list of tokens; `run` is the loop
--                  of `Lexer::run`, `lex_one` one round of it
--   Config/Parser  src/config/pipeline/Parser.cpp: one function per `handle...` method, on the
--                  tokens from the current one on
--   Config/Factory src/config/arguments/ArgumentFactory.cpp: tokens to arguments
--   Config/Endpoint src/config/internal/utils.cpp: addresses and ports
--   Config/Directives, Config/Mapper
--                  src/config/directives, src/config/pipeline/DirectiveHandler.cpp and Mapper.cpp: one
--                  function per directive, and the blocks that they fill
--   Config/Validator, Config/Build
--                  src/config/pipeline/Validator.cpp, `build` of src/config/ServerConfig.cpp
--   Config/Argument, Config/Block, Config/Location
--                  src/config/arguments, src/config/internal/Block.cpp,
--                  src/config/LocationBlock.cpp: values of directives, and blocks that hold them
--   Config/Server  src/config/ServerBlock.cpp, ServerBlockDetails.cpp: `match_location` and
--                  `best_match_location`
--   Config/Servers src/config/ServerConfig.cpp: `add_server` and `get_server`
--   Http/Status    src/http/internal/HttpStatus.cpp
--   Http/Headers   src/http/Headers.cpp
--   Http/Request   src/http/Request.cpp: the request line, the request, its limit
--   Http/Chunked   src/http/internal/ChunkedBodyParser.cpp: one function per handler, `run` for the
--                  loop of `parse`
--   Http/RequestParser
--                  src/http/RequestParser.cpp: `feed`, `proceed_reading_body`, `reset` and all that
--                  they call; the record RequestParser has the fields of the class
--   Http/Router    src/http/Router.cpp: the matching, and which handler `dispatch` calls
--   Http/Upload    src/http/FileUploadValidator.cpp
--   Http/MimeTypes, Http/Resolve, Http/Files, Http/TempFile
--                  src/http/MimeTypes.cpp, `Request::resolvePath`, src/common/filesystem.cpp
--   Http/Response  src/http/Response.cpp, ResponseBody.cpp
--   Http/Handlers, Http/UploadHandler, Http/Listing, Http/Errors
--                  src/http/handlers, without CGIHandler.cpp
--   Http/Dispatch  `dispatch` of src/http/Router.cpp with what the handlers do
--   Network/Events src/network/EventDispatcher.cpp: `round` is one round of `handleEvents`
--   Network/SendBuffer, Network/Connection, Network/Serving, Network/Client
--                  src/network/ClientHandler.cpp: the buffer, the state of a connection, what it does
--                  with a request, and `handle_event`, with one record of the system's answers for
--                  each event
--   Network/Cgi    src/network/handlers/CGIHandler.cpp
--
-- State is passed explicitly: an operation takes the object and returns it changed. What the
-- operating system answers (`mkstemp`, `write`, `lseek`) is the record Os, an argument of the
-- operations, with the one law that a write takes no more than it was given; the answers of the
-- file system to the handlers, and of the socket to a connection, are records as well. A `size_t` is
-- a natural number, and its sums in the chunk decoder and in the length of the header section wrap
-- around at 2^64. Bytes are natural numbers.
--
-- Loops. Those that consume one element at a time are structural. The loops of the chunk decoder,
-- of the lexer and of the search for a location run on fuel, one more than the length of the
-- input; every round consumes a byte at least, so that more fuel changes nothing. The parser of
-- the configuration has one more than the number of tokens, and every round of its loops takes one;
-- where its fuel ran out it would answer `out_of_fuel`, an exception that nothing else throws.
--
-- Copying a file has one round for every 16384 bytes or less, and fuel for one for every byte; the
-- state of the request parser is handled twice at most, since it leaves HEADERS_READY at once.
--
-- Not modelled: the start of a CGI process with its arguments and environment, which is not
-- translated yet; the router has it as a parameter. What the destructors of the event handlers do to
-- the dispatcher. Sockets, epoll, logging, printing and start-up code are system calls and output.
-- Texts of error messages are left out, but for those that end in an answer.
--
-- Where the source reads the first element of an empty vector, the model answers `out_of_range`; in
-- the handlers of errors and uploads, which return no result type, it answers as if the directive
-- were missing.
pub mod Common
pub mod Config
pub mod Http
pub mod Network
