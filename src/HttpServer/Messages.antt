-- ===== src/HttpServer/Messages.antt =====
-- cHTTPServer.cpp, cHTTPSServer.cpp and their _V2: the texts of `lastError`, with HTTP or HTTPS.
use thread_component.Prelude.{[], ◌∷◌, ◌++◌}
use thread_component.HttpClient.Text.{Text}

-- "HTTP".
abbrev pub http : Text
http = 72 ∷ 84 ∷ 84 ∷ 80 ∷ []

-- "HTTPS".
abbrev pub https : Text
https = 72 ∷ 84 ∷ 84 ∷ 80 ∷ 83 ∷ []

-- "Failed to initialize ".
abbrev pub initialize_failed_start : Text
initialize_failed_start =
    70 ∷ 97 ∷ 105 ∷ 108 ∷ 101 ∷ 100 ∷ 32 ∷ 116 ∷ 111 ∷ 32 ∷ 105 ∷ 110 ∷ 105 ∷ 116 ∷ 105 ∷ 97 ∷ 108
    ∷ 105 ∷ 122 ∷ 101 ∷ 32 ∷ []

-- " server".
abbrev pub initialize_failed_end : Text
initialize_failed_end = 32 ∷ 115 ∷ 101 ∷ 114 ∷ 118 ∷ 101 ∷ 114 ∷ []

abbrev pub initialize_failed : Text → Text
initialize_failed protocol = initialize_failed_start ++ protocol ++ initialize_failed_end

-- " server stopped".
abbrev pub stopped_end : Text
stopped_end =
    32 ∷ 115 ∷ 101 ∷ 114 ∷ 118 ∷ 101 ∷ 114 ∷ 32 ∷ 115 ∷ 116 ∷ 111 ∷ 112 ∷ 112 ∷ 101 ∷ 100 ∷ []

abbrev pub stopped : Text → Text
stopped protocol = protocol ++ stopped_end

-- " server exited unexpectedly".
abbrev pub exited_unexpectedly_end : Text
exited_unexpectedly_end =
    32 ∷ 115 ∷ 101 ∷ 114 ∷ 118 ∷ 101 ∷ 114 ∷ 32 ∷ 101 ∷ 120 ∷ 105 ∷ 116 ∷ 101 ∷ 100 ∷ 32 ∷ 117 ∷ 110
    ∷ 101 ∷ 120 ∷ 112 ∷ 101 ∷ 99 ∷ 116 ∷ 101 ∷ 100 ∷ 108 ∷ 121 ∷ []

abbrev pub exited_unexpectedly : Text → Text
exited_unexpectedly protocol = protocol ++ exited_unexpectedly_end

-- "Unhandled ".
abbrev pub unhandled_server_start : Text
unhandled_server_start = 85 ∷ 110 ∷ 104 ∷ 97 ∷ 110 ∷ 100 ∷ 108 ∷ 101 ∷ 100 ∷ 32 ∷ []

-- " server exception".
abbrev pub unhandled_server_end : Text
unhandled_server_end =
    32 ∷ 115 ∷ 101 ∷ 114 ∷ 118 ∷ 101 ∷ 114 ∷ 32 ∷ 101 ∷ 120 ∷ 99 ∷ 101 ∷ 112 ∷ 116 ∷ 105 ∷ 111 ∷ 110
    ∷ []

abbrev pub unhandled_server : Text → Text
unhandled_server protocol = unhandled_server_start ++ protocol ++ unhandled_server_end

-- " server stop requested".
abbrev pub stop_requested_text_end : Text
stop_requested_text_end =
    32 ∷ 115 ∷ 101 ∷ 114 ∷ 118 ∷ 101 ∷ 114 ∷ 32 ∷ 115 ∷ 116 ∷ 111 ∷ 112 ∷ 32 ∷ 114 ∷ 101 ∷ 113 ∷ 117
    ∷ 101 ∷ 115 ∷ 116 ∷ 101 ∷ 100 ∷ []

abbrev pub stop_requested_text : Text → Text
stop_requested_text protocol = protocol ++ stop_requested_text_end

-- "Unhandled io_context exception".
abbrev pub unhandled_io : Text
unhandled_io =
    85 ∷ 110 ∷ 104 ∷ 97 ∷ 110 ∷ 100 ∷ 108 ∷ 101 ∷ 100 ∷ 32 ∷ 105 ∷ 111 ∷ 95 ∷ 99 ∷ 111 ∷ 110 ∷ 116
    ∷ 101 ∷ 120 ∷ 116 ∷ 32 ∷ 101 ∷ 120 ∷ 99 ∷ 101 ∷ 112 ∷ 116 ∷ 105 ∷ 111 ∷ 110 ∷ []

-- " server is not initialized".
abbrev pub not_initialized_end : Text
not_initialized_end =
    32 ∷ 115 ∷ 101 ∷ 114 ∷ 118 ∷ 101 ∷ 114 ∷ 32 ∷ 105 ∷ 115 ∷ 32 ∷ 110 ∷ 111 ∷ 116 ∷ 32 ∷ 105 ∷ 110
    ∷ 105 ∷ 116 ∷ 105 ∷ 97 ∷ 108 ∷ 105 ∷ 122 ∷ 101 ∷ 100 ∷ []

abbrev pub not_initialized : Text → Text
not_initialized protocol = protocol ++ not_initialized_end

-- "HTTPS server requires certificate and private key files".
abbrev pub files_required : Text
files_required =
    72 ∷ 84 ∷ 84 ∷ 80 ∷ 83 ∷ 32 ∷ 115 ∷ 101 ∷ 114 ∷ 118 ∷ 101 ∷ 114 ∷ 32 ∷ 114 ∷ 101 ∷ 113 ∷ 117
    ∷ 105 ∷ 114 ∷ 101 ∷ 115 ∷ 32 ∷ 99 ∷ 101 ∷ 114 ∷ 116 ∷ 105 ∷ 102 ∷ 105 ∷ 99 ∷ 97 ∷ 116 ∷ 101 ∷ 32
    ∷ 97 ∷ 110 ∷ 100 ∷ 32 ∷ 112 ∷ 114 ∷ 105 ∷ 118 ∷ 97 ∷ 116 ∷ 101 ∷ 32 ∷ 107 ∷ 101 ∷ 121 ∷ 32 ∷ 102
    ∷ 105 ∷ 108 ∷ 101 ∷ 115 ∷ []
