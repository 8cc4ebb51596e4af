-- ===== src/Mime/Table6.antt =====
-- src/mime.rs: the entries of `MIME_TYPE_BY_EXTENSION` from "pmr" to "sema".
use anweb.Prelude.{List, [], ◌∷◌, codes, Bytes}

abbrev pub types_6 : List (Bytes × Bytes)
types_6 =
    (codes "pmr", codes "application/x-perfmon")
    ∷ (codes "pmw", codes "application/x-perfmon")
    ∷ (codes "png", codes "image/png")
    ∷ (codes "pnm", codes "image/x-portable-anymap")
    ∷ (codes "pnt", codes "image/x-macpaint")
    ∷ (codes "pntg", codes "image/x-macpaint")
    ∷ (codes "pnz", codes "image/png")
    ∷ (codes "portpkg", codes "application/vnd.macports.portpkg")
    ∷ (codes "pot", codes "application/vnd.ms-powerpoint")
    ∷ (codes "potm", codes "application/vnd.ms-powerpoint.template.macroEnabled.12")
    ∷ (codes "potx", codes "application/vnd.openxmlformats-officedocument.presentationml.template")
    ∷ (codes "ppa", codes "application/vnd.ms-powerpoint")
    ∷ (codes "ppam", codes "application/vnd.ms-powerpoint.addin.macroEnabled.12")
    ∷ (codes "ppd", codes "application/vnd.cups-ppd")
    ∷ (codes "ppm", codes "image/x-portable-pixmap")
    ∷ (codes "pps", codes "application/vnd.ms-powerpoint")
    ∷ (codes "ppsm", codes "application/vnd.ms-powerpoint.slideshow.macroEnabled.12")
    ∷ (codes "ppsx", codes "application/vnd.openxmlformats-officedocument.presentationml.slideshow")
    ∷ (codes "ppt", codes "application/vnd.ms-powerpoint")
    ∷ (codes "pptm", codes "application/vnd.ms-powerpoint.presentation.macroEnabled.12")
    ∷ (
      codes "pptx",
      codes "application/vnd.openxmlformats-officedocument.presentationml.presentation",
    )
    ∷ (codes "pqa", codes "application/vnd.palm")
    ∷ (codes "prc", codes "application/x-mobipocket-ebook")
    ∷ (codes "pre", codes "application/vnd.lotus-freelance")
    ∷ (codes "prf", codes "application/pics-rules")
    ∷ (codes "prm", codes "application/octet-stream")
    ∷ (codes "prx", codes "application/octet-stream")
    ∷ (codes "ps", codes "application/postscript")
    ∷ (codes "psb", codes "application/vnd.3gpp.pic-bw-small")
    ∷ (codes "psc1", codes "application/PowerShell")
    ∷ (codes "psd", codes "application/octet-stream")
    ∷ (codes "psess", codes "application/xml")
    ∷ (codes "psf", codes "application/x-font-linux-psf")
    ∷ (codes "pskcxml", codes "application/pskc+xml")
    ∷ (codes "psm", codes "application/octet-stream")
    ∷ (codes "psp", codes "application/octet-stream")
    ∷ (codes "pst", codes "application/vnd.ms-outlook")
    ∷ (codes "ptid", codes "application/vnd.pvi.ptid1")
    ∷ (codes "pub", codes "application/x-mspublisher")
    ∷ (codes "pvb", codes "application/vnd.3gpp.pic-bw-var")
    ∷ (codes "pwn", codes "application/vnd.3m.post-it-notes")
    ∷ (codes "pwz", codes "application/vnd.ms-powerpoint")
    ∷ (codes "py", codes "text/plain")
    ∷ (codes "pya", codes "audio/vnd.ms-playready.media.pya")
    ∷ (codes "pyv", codes "video/vnd.ms-playready.media.pyv")
    ∷ (codes "qam", codes "application/vnd.epson.quickanime")
    ∷ (codes "qbo", codes "application/vnd.intu.qbo")
    ∷ (codes "qfx", codes "application/vnd.intu.qfx")
    ∷ (codes "qht", codes "text/x-html-insertion")
    ∷ (codes "qhtm", codes "text/x-html-insertion")
    ∷ (codes "qps", codes "application/vnd.publishare-delta-tree")
    ∷ (codes "qt", codes "video/quicktime")
    ∷ (codes "qti", codes "image/x-quicktime")
    ∷ (codes "qtif", codes "image/x-quicktime")
    ∷ (codes "qtl", codes "application/x-quicktimeplayer")
    ∷ (codes "qwd", codes "application/vnd.quark.quarkxpress")
    ∷ (codes "qwt", codes "application/vnd.quark.quarkxpress")
    ∷ (codes "qxb", codes "application/vnd.quark.quarkxpress")
    ∷ (codes "qxd", codes "application/octet-stream")
    ∷ (codes "qxl", codes "application/vnd.quark.quarkxpress")
    ∷ (codes "qxt", codes "application/vnd.quark.quarkxpress")
    ∷ (codes "ra", codes "audio/x-pn-realaudio")
    ∷ (codes "ram", codes "audio/x-pn-realaudio")
    ∷ (codes "raml", codes "application/raml+yaml")
    ∷ (codes "rar", codes "application/x-rar-compressed")
    ∷ (codes "ras", codes "image/x-cmu-raster")
    ∷ (codes "rat", codes "application/rat-file")
    ∷ (codes "rc", codes "text/plain")
    ∷ (codes "rc2", codes "text/plain")
    ∷ (codes "rcprofile", codes "application/vnd.ipunplugged.rcprofile")
    ∷ (codes "rct", codes "text/plain")
    ∷ (codes "rdf", codes "application/rdf+xml")
    ∷ (codes "rdlc", codes "application/xml")
    ∷ (codes "rdz", codes "application/vnd.data-vision.rdz")
    ∷ (codes "reg", codes "text/plain")
    ∷ (codes "rep", codes "application/vnd.businessobjects")
    ∷ (codes "res", codes "application/x-dtbresource+xml")
    ∷ (codes "resx", codes "application/xml")
    ∷ (codes "rf", codes "image/vnd.rn-realflash")
    ∷ (codes "rgb", codes "image/x-rgb")
    ∷ (codes "rgs", codes "text/plain")
    ∷ (codes "rif", codes "application/reginfo+xml")
    ∷ (codes "rip", codes "audio/vnd.rip")
    ∷ (codes "ris", codes "application/x-research-info-systems")
    ∷ (codes "rl", codes "application/resource-lists+xml")
    ∷ (codes "rlc", codes "image/vnd.fujixerox.edmics-rlc")
    ∷ (codes "rld", codes "application/resource-lists-diff+xml")
    ∷ (codes "rm", codes "application/vnd.rn-realmedia")
    ∷ (codes "rmi", codes "audio/mid")
    ∷ (codes "rmp", codes "application/vnd.rn-rn_music_package")
    ∷ (codes "rms", codes "application/vnd.jcp.javame.midlet-rms")
    ∷ (codes "rmvb", codes "application/vnd.rn-realmedia-vbr")
    ∷ (codes "rnc", codes "application/relax-ng-compact-syntax")
    ∷ (codes "rng", codes "application/xml")
    ∷ (codes "roa", codes "application/rpki-roa")
    ∷ (codes "roff", codes "application/x-troff")
    ∷ (codes "rp9", codes "application/vnd.cloanto.rp9")
    ∷ (codes "rpm", codes "audio/x-pn-realaudio-plugin")
    ∷ (codes "rpss", codes "application/vnd.nokia.radio-presets")
    ∷ (codes "rpst", codes "application/vnd.nokia.radio-preset")
    ∷ (codes "rq", codes "application/sparql-query")
    ∷ (codes "rqy", codes "text/x-ms-rqy")
    ∷ (codes "rs", codes "text/x-rust")
    ∷ (codes "rsd", codes "application/rsd+xml")
    ∷ (codes "rss", codes "application/rss+xml")
    ∷ (codes "rtf", codes "application/rtf")
    ∷ (codes "rtx", codes "text/richtext")
    ∷ (codes "ruleset", codes "application/xml")
    ∷ (codes "run", codes "application/x-makeself")
    ∷ (codes "rvt", codes "application/octet-stream")
    ∷ (codes "s", codes "text/plain")
    ∷ (codes "s3m", codes "audio/s3m")
    ∷ (codes "saf", codes "application/vnd.yamaha.smaf-audio")
    ∷ (codes "safariextz", codes "application/x-safari-safariextz")
    ∷ (codes "sass", codes "text/x-sass")
    ∷ (codes "sbml", codes "application/sbml+xml")
    ∷ (codes "sc", codes "application/vnd.ibm.secure-container")
    ∷ (codes "scd", codes "application/x-msschedule")
    ∷ (codes "scm", codes "application/vnd.lotus-screencam")
    ∷ (codes "scq", codes "application/scvp-cv-request")
    ∷ (codes "scr", codes "text/plain")
    ∷ (codes "scs", codes "application/scvp-cv-response")
    ∷ (codes "scss", codes "text/x-scss")
    ∷ (codes "sct", codes "text/scriptlet")
    ∷ (codes "scurl", codes "text/vnd.curl.scurl")
    ∷ (codes "sd2", codes "audio/x-sd2")
    ∷ (codes "sda", codes "application/vnd.stardivision.draw")
    ∷ (codes "sdc", codes "application/vnd.stardivision.calc")
    ∷ (codes "sdd", codes "application/vnd.stardivision.impress")
    ∷ (codes "sdkd", codes "application/vnd.solent.sdkm+xml")
    ∷ (codes "sdkm", codes "application/vnd.solent.sdkm+xml")
    ∷ (codes "sdp", codes "application/sdp")
    ∷ (codes "sdw", codes "application/vnd.stardivision.writer")
    ∷ (codes "sea", codes "application/octet-stream")
    ∷ (codes "searchconnector-ms", codes "application/windows-search-connector+xml")
    ∷ (codes "see", codes "application/vnd.seemail")
    ∷ (codes "seed", codes "application/vnd.fdsn.seed")
    ∷ (codes "sema", codes "application/vnd.sema")
    ∷ []
