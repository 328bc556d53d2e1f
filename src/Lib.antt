-- ===== src/Lib.antt =====
-- mohican, an HTTP server and reverse proxy: a master process forks workers, and each worker serves
-- connections from an epoll loop. A connection is a state machine (project/workers/src/
-- client_connection.cpp): it reads a request byte by byte, chooses the location of the server for
-- its url, and either answers with a file or passes the request on to an upstream.
--
-- The modules, with the code they are about:
--   Common    lists and tests on numbers, `int`, and what a C++ call gives back: a value, an
--             exception or undefined behaviour, with the state that it leaves (`Method`).
--   Text      std::string as a list of bytes, with the functions of the standard library that the
--             program calls: find, rfind, substr, stoi, stoul, to_string, sscanf; and
--             project/http/src/string_to_lower.cpp.
--   Http      Request: HttpRequest (project/http/src/http_request.cpp): add_line and what it calls,
--             get_string, and the constructor from a whole text (Whole). Response: HttpResponse
--             (http_response.cpp), add_line and get_string. Headers: the unordered_map of header
--             fields. Handler: http_handler and get_content_type (http_handle.cpp), with FileTypes
--             (http_file_types.h) and Date (http_date.cpp).
--   Config    Upstream: UpstreamSettings (project/config/src/upstream_settings.cpp). Server:
--             ServerSettings (server_settings.cpp): properties, locations, get_location.
--             Main: MainServerSettings (main_server_settings.cpp). Lexer, Location, Upstreams and
--             Parser: parse_functions.cpp, as get_lexem, parse_location, parse_upstreams and
--             parse_config.
--   Worker    Os: what a connection sees of the operating system. Connection: ClientConnection, as
--             Stage (its state), Progress (is_timeout and the end of a transfer), Receive
--             (get_request, get_proxy_header, get_body), Send, SendFile and SendBody (send_header,
--             send_file, send_body),
--             Block, Respond and Proxy (the blocks of connection_processing with process_location,
--             make_response_header and connect_to_upstream) and Processing (connection_processing).
--             Sockets is about the two sockets of a connection.
--             Banned: is_banned_upstream (worker_process.cpp). Process: WorkerProcess, as Step (the
--             body of its loop: epoll, the objects by address, what follows a status), Run (run) and
--             Connections and Lawful (ClientConnection as the class of its connections).
--   Server    MohicanServer (project/server/src/mohican_server.cpp, main.cpp), as Start (daemonize, the
--             workers, the listening socket, the pid file), Stop (server_stop), Reload
--             (apply_config, server_reload) and Loop (server_start, main).
--   Balancing start_balancing (balancing_to_add.cpp), a draft that no target builds.
--   Tests     concrete inputs.
--
-- Functions keep their names. A member function on an object is a function of the object's record
-- into a result and the record that it leaves, so that what an exception leaves half done is there to
-- see. A size_t is a number below 2 ^ 64 with its wrap-around written out (sub_size); an `int` has its
-- range where the code converts text to it. The order in which an unordered_map gives its entries is
-- the parameter `each`, and std::regex_match the parameter `regex`. System calls are tapes: the results of
-- read and write on a socket in order, the files by path, the calls that connect to an upstream as
-- Booleans, the clock as a function of the number of calls. A variable that is read before it is
-- written has any value: `stale_flag` and `stale_failed` of Os, `timeout` and `body_length` of the
-- constructor.
--
-- A worker process is given what happens as a list of batches, one for each epoll_wait: signals, and
-- descriptors that are ready, each with what the calls of its event give. Its interest list is a table
-- from descriptors, and `new` and `delete` are a table from addresses, so that a pointer to a deleted
-- object finds none. The class of the connections is a parameter, a record of operations with laws.
-- A master process is one process: what fork gives is a list, in which a child goes on with its own
-- number, and the calls that others see are kept in order. Signals come before each test of its loop.
--
-- Loops are structural recursion: on the bytes of a string, or on the tape of a socket, which each
-- iteration shortens. is_sub_ip_num and its caller go over the three rounds that the code makes. The
-- loops of the parser and of the constructor of HttpRequest, which read a text from a position, are
-- recursion on fuel: the length of the text, and one or two iterations more, are enough, since each
-- iteration reads a byte.
--
-- Not modelled: print_properties, which only prints;
-- what is written to the logs (project/logs), with cast_types_logs_level,
-- and message_to_log.
pub mod Common
pub mod Text
pub mod Http
pub mod Config
pub mod Worker
pub mod Server
pub mod Balancing
pub mod Tests
